-- ===== src/FileServer/Requests/Words.antt =====
-- The words of a header, and the request that they make.
use eecs.Base.{
  codes, ℕ, ◌≤◌, ◌≡◌, ◌≢◌, refl, inl, inr, true, false, not, List, [], ◌∷◌, ◌++◌, length, arith,
  NoNul, some, ◌∙◌, All, ltb, fun_ext, ◌||◌,
}
use eecs.FileServer.Params.{fs_maxusername, fs_maxpathname}
use eecs.FileServer.Text.{check_request_type}
use eecs.FileServer.Text.Spaces.{spaces, check_request_type-Dispatches}
use eecs.FileServer.Handlers.{handle_readblock, handle_writeblock, handle_create, handle_delete}
use eecs.FileServer.State.{Server, M}
use eecs.FileServer.Common.{isspace, skip_spaces, take_word, next_word}
use eecs.FileServer.Requests.{
  RecvByte, Connection, header_loop, max_header_len, dispatch, serve_header, handle_requests,
}
use eecs.FileServer.Requests.Header.{sent, header_loop-Received}

-- A word that `>>` reads as a whole.
abbrev pub IsWord : List ℕ → Type 0
IsWord w = (w ≢ []) × All (λ c. isspace c ≡ false) w

-- What stands behind a word.
abbrev pub IsTail : List ℕ → Type 0
IsTail [] = Unit {0}
IsTail (c ∷ s) = isspace c ≡ true

take_word-append :
    (w tail : List ℕ)
    → All (λ c. isspace c ≡ false) w
    → IsTail tail
    → take_word (w ++ tail) ≡ (w, tail)
unfolding take_word
take_word-append [] [] h t = refl
take_word-append [] (c ∷ tail) h t = rw t refl
take_word-append (c ∷ w) tail h t = rw (h.0) (rw (take_word-append w tail h.1 t) refl)

next_word-append :
    (w tail : List ℕ) → IsWord w → IsTail tail → next_word (w ++ tail) ≡ some (w, tail)
next_word-append [] tail h t = absurd (h.0 refl)
next_word-append (c ∷ w) tail h t =
    unfold next_word skip_spaces in rw (h.1.0) (rw (take_word-append (c ∷ w) tail h.1 t) refl)

next_word-space : (s : List ℕ) → next_word (b' ' ∷ s) ≡ next_word s
unfolding next_word skip_spaces
next_word-space s = refl

-- The header of a request: its words behind single spaces.
abbrev pub header : List ℕ → List ℕ → List ℕ → List ℕ → List ℕ
header type username pathname tail = type ++ b' ' ∷ (username ++ b' ' ∷ (pathname ++ tail))

-- Such a header, with what the server's limits allow.
pub record IsHeader (type username pathname tail : List ℕ) : Type 0 where
  pub words : IsWord type × IsWord username × IsWord pathname
  pub is_tail : IsTail tail
  pub user_fits : length username ≤ fs_maxusername
  pub path_fits : length pathname ≤ fs_maxpathname
  pub fits : length (header type username pathname tail) ≤ max_header_len
  pub no_nul : NoNul (header type username pathname tail)

serve_header-words :
    (c : Connection) (h type username pathname r1 r2 r3 : List ℕ) (s : Server)
    → next_word h ≡ some (type, r1)
    → next_word r1 ≡ some (username, r2)
    → next_word r2 ≡ some (pathname, r3)
    → length username ≤ fs_maxusername
    → length pathname ≤ fs_maxpathname
    → serve_header c h s ≡ dispatch c (check_request_type type h) r3 username pathname s
unfolding serve_header
serve_header-words c h type username pathname r1 r2 r3 s e1 e2 e3 u p =
    let limits : not (ltb fs_maxusername (length username) || ltb fs_maxpathname (length pathname))
        ≡ true =
      ground arith in
    rw e1 (rw e2 (rw e3 (rw limits refl)))

header-dispatch :
    (type username pathname tail : List ℕ) (c : Connection) (more : List RecvByte)
    → IsHeader type username pathname tail
    → c.header_bytes ≡ sent (header type username pathname tail) more
    → handle_requests c
      ≡ dispatch c
          (check_request_type type (header type username pathname tail))
          tail
          username
          pathname
unfolding handle_requests
header-dispatch type username pathname tail c more v e =
    elim (header_loop-Received c.buf (header type username pathname tail) more v.no_nul) [
      | inr (long, _) ↦ absurd (omega (arith, long, v.fits))
      | inl (_, got) ↦ fun_ext λ s.
          rw (e, header_loop)
            (rw (got, header_loop)
              (serve_header-words c _ type username pathname _ _ tail s first second third
                v.user_fits v.path_fits))
    ]
  where
    first :
        next_word (header type username pathname tail)
        ≡ some (type, b' ' ∷ (username ++ b' ' ∷ (pathname ++ tail)))
    first = next_word-append type (b' ' ∷ (username ++ b' ' ∷ (pathname ++ tail))) v.words.0 refl

    second :
        next_word (b' ' ∷ (username ++ b' ' ∷ (pathname ++ tail)))
        ≡ some (username, b' ' ∷ (pathname ++ tail))
    second =
        next_word-space (username ++ b' ' ∷ (pathname ++ tail))
        ∙ next_word-append username (b' ' ∷ (pathname ++ tail)) v.words.1 refl

    third : next_word (b' ' ∷ (pathname ++ tail)) ≡ some (pathname, tail)
    third = next_word-space (pathname ++ tail) ∙ next_word-append pathname tail v.words.2 v.is_tail

-- What a client asks for by the first word, the number of spaces in the header and the rest behind the
-- path, and the handler that is for it.
pub data Asks (c : Connection) (username pathname tail : List ℕ)
    : List ℕ → ℕ → M (List ℕ) → Type 0 where
  reads :
      Asks c username pathname tail
        (codes "FS_READBLOCK")
        3
        (handle_readblock tail username pathname)
  writes :
      Asks c username pathname tail
        (codes "FS_WRITEBLOCK")
        3
        (handle_writeblock c.stack tail c.incoming username pathname)
  creates :
      Asks c username pathname tail
        (codes "FS_CREATE")
        3
        (handle_create c.stack tail username pathname)
  deletes :
      Asks c username pathname tail (codes "FS_DELETE") 2 (handle_delete c.stack username pathname)

Asks-dispatch :
    {c : Connection} {username pathname tail type : List ℕ} {n : ℕ} {handler : M (List ℕ)}
    (h : List ℕ)
    → Asks c username pathname tail type n handler
    → spaces h ≡ n
    → dispatch c (check_request_type type h) tail username pathname ≡ handler
unfolding dispatch
Asks-dispatch {type} h reads e = rw ((check_request_type-Dispatches type h).0.1 (refl, e)) refl
Asks-dispatch {type} h writes e = rw ((check_request_type-Dispatches type h).1.1 (refl, e)) refl
Asks-dispatch {type} h creates e = rw ((check_request_type-Dispatches type h).2.1 (refl, e)) refl
Asks-dispatch {type} h deletes e = rw ((check_request_type-Dispatches type h).3.1 (refl, e)) refl

-- A connection on which a client sends a header within the limits, ended by a NUL, whose first word is
-- FS_READBLOCK, FS_WRITEBLOCK, FS_CREATE or FS_DELETE, with three spaces in the header or two for the
-- last, is served by the handler of that name, with the second word for the user, the third for the
-- path, and the rest of the header.
pub handle_requests-Asks :
    (type username pathname tail : List ℕ) (c : Connection) (more : List RecvByte) (n : ℕ)
    (handler : M (List ℕ))
    → Asks c username pathname tail type n handler
    → IsHeader type username pathname tail
    → spaces (header type username pathname tail) ≡ n
    → c.header_bytes ≡ sent (header type username pathname tail) more
    → handle_requests c ≡ handler
handle_requests-Asks type username pathname tail c more n handler asks v k e =
    header-dispatch type username pathname tail c more v e
    ∙ Asks-dispatch (header type username pathname tail) asks k
