-- ===== src/FileServer/Requests/Served.antt =====
-- What a connection does, by what the handlers do.
use eecs.Base.{
  ℕ, ◌≡◌, ◌≢◌, refl, ap, ◌∙◌, ◌⊎◌, inl, inr, Bool, true, false, not, ◌||◌, List, [], ◌∷◌, ◌++◌,
  length, ltb, ◌==◌, Option, none, some, Bool-cases,
}
use eecs.FileServer.Params.{fs_maxusername, fs_maxpathname}
use eecs.FileServer.Text.{check_request_type}
use eecs.FileServer.State.{
  Server, Outcome, M, ◌>>=◌, ◌>>◌, or_leave, require, done, returned, crashed,
}
use eecs.FileServer.State.Locks.{AllFree}
use eecs.FileServer.Common.{next_word}
use eecs.FileServer.Handlers.{Request, create, delete, readblock, writeblock, serve_request}
use eecs.FileServer.Handlers.Locks.{NoSelfEntry}
use eecs.FileServer.Handlers.Released.{serve_request-AllFree}
use eecs.FileServer.Handlers.Atomic.{Rotated, serve_request-Rotated}
use eecs.FileServer.Requests.{
  RecvByte, byte, eof, error, max_header_len, header_loop, Connection, dispatch, serve_header,
  handle_requests,
}

-- A run that sends no response and leaves the state as it was.
abbrev Refused : Server → Outcome (List ℕ) × Server → Type 0
Refused s run = (run ≡ (returned, s)) ⊎ (run ≡ (crashed, s))

abbrev Serves : Server → Outcome (List ℕ) × Server → Type 0
Serves s run = Refused s run ⊎ ((r : Request) × (run ≡ serve_request r s))

-- The receiving loop changes no state.
header_loop-cases :
    (buf : ℕ) (so_far : List ℕ) (l : List RecvByte) (s : Server)
    → ((h : List ℕ) × (header_loop buf so_far l s ≡ (done h, s)))
      ⊎ Refused s (header_loop buf so_far l s)
unfolding header_loop
header_loop-cases buf so_far [] s = elim (Bool-cases (buf == 0)) [
  | inl z ↦ rw z (inl (so_far, refl))
  | inr nz ↦ rw nz (inr (inl refl))
]
header_loop-cases buf so_far (eof ∷ more) s = elim (Bool-cases (buf == 0)) [
  | inl z ↦ rw z (inl (so_far, refl))
  | inr nz ↦ rw nz (inr (inl refl))
]
header_loop-cases buf so_far (error ∷ more) s = elim (Bool-cases (buf == 0)) [
  | inl z ↦ rw z (inl (so_far, refl))
  | inr nz ↦ rw nz (inr (inr refl))
]
header_loop-cases buf so_far (byte c ∷ more) s =
    step (header_loop-cases c (so_far ++ c ∷ []) more s)
  where
    step :
        ((h : List ℕ) × (header_loop c (so_far ++ c ∷ []) more s ≡ (done h, s)))
          ⊎ Refused s (header_loop c (so_far ++ c ∷ []) more s)
        → ((h : List ℕ) × (header_loop buf so_far (byte c ∷ more) s ≡ (done h, s)))
          ⊎ Refused s (header_loop buf so_far (byte c ∷ more) s)
    step ih = elim (Bool-cases (c == 0)) [
      | inl z ↦ inl (so_far, rw (z, header_loop) refl)
      | inr nz ↦ elim (Bool-cases (ltb max_header_len (length (so_far ++ c ∷ [])))) [
        | inl full ↦ rw (nz, header_loop) (rw (full, header_loop) (inr (inl refl)))
        | inr room ↦ rw (nz, header_loop) (rw (room, header_loop) ih)
      ]
    ]

dispatch-Serves :
    (c : Connection) (type : ℕ) (req username pathname : List ℕ) (s : Server)
    → Serves s (dispatch c type req username pathname s)
unfolding dispatch
dispatch-Serves c type req username pathname s = elim (Bool-cases (type == 1)) [
  | inl y ↦ rw y (inr (readblock req username pathname, refl))
  | inr n ↦ elim (Bool-cases (type == 2)) [
    | inl y ↦ rw (n, y) (inr (writeblock c.stack req c.incoming username pathname, refl))
    | inr n2 ↦ elim (Bool-cases (type == 3)) [
      | inl y ↦ rw (n, n2, y) (inr (create c.stack req username pathname, refl))
      | inr n3 ↦ elim (Bool-cases (type == 4)) [
        | inl y ↦ rw (n, n2, n3, y) (inr (delete c.stack username pathname, refl))
        | inr n4 ↦ rw (n, n2, n3, n4) (inl (inl refl))
      ]
    ]
  ]
]

module _ {A : Type 0} (s : Server) (k : A → M (List ℕ)) where
  or_leave-Serves : (o : Option A) → ((a : A) → Serves s (k a s)) → Serves s ((or_leave o >>= k) s)
  or_leave-Serves none h = inl (inl refl)
  or_leave-Serves (some a) h = h a

require-Serves :
    (s : Server) (b : Bool) (m : M (List ℕ)) → Serves s (m s) → Serves s ((require b >> m) s)
require-Serves s false m h = inl (inl refl)
require-Serves s true m h = h

serve_header-Serves : (c : Connection) (h : List ℕ) (s : Server) → Serves s (serve_header c h s)
unfolding serve_header
serve_header-Serves c h s = or_leave-Serves s _ (next_word h) λ type.
    or_leave-Serves s _ (next_word type.1) λ username.
      or_leave-Serves s _ (next_word username.1) λ pathname.
        require-Serves s
          (not (ltb fs_maxusername (length username.0) || ltb fs_maxpathname (length pathname.0)))
          (dispatch c (check_request_type type.0 h) pathname.1 username.0 pathname.0)
          (dispatch-Serves c (check_request_type type.0 h) pathname.1 username.0 pathname.0 s)

handle_requests-Serves : (c : Connection) (s : Server) → Serves s (handle_requests c s)
unfolding handle_requests
handle_requests-Serves c s = elim (header_loop-cases c.buf [] c.header_bytes s) [
  | inl (h, e) ↦ rw e (serve_header-Serves c h s)
  | inr (inl e) ↦ rw e (inl (inl refl))
  | inr (inr e) ↦ rw e (inl (inr refl))
]

-- On a disk where no directory of the tree has an entry for itself, a connection that starts with no lock held
-- takes and gives back locks only in turn, never waits for a lock of its own, and ends with no lock
-- held: for every request, on every way out, errors included.
pub handle_requests-AllFree :
    (c : Connection) (s : Server)
    → NoSelfEntry s.disk
    → AllFree s.log
    → AllFree (handle_requests c s).1.log
handle_requests-AllFree c s h v = elim (handle_requests-Serves c s) [
  | inl (inl e) ↦ rw e v
  | inl (inr e) ↦ rw e v
  | inr (r, e) ↦ rw e (serve_request-AllFree r s h v)
]

-- A connection that gets no response, because its request is refused or because an exception ends
-- it, leaves every disk block as it was, and the free blocks as they were up to moving the first one
-- to the end of the queue.
pub handle_requests-Rotated :
    (c : Connection) (s : Server)
    → ((message : List ℕ) → (handle_requests c s).0 ≢ done message)
    → ((handle_requests c s).1.disk ≡ s.disk)
      × Rotated s.free_blocks (handle_requests c s).1.free_blocks
handle_requests-Rotated c s silent = elim (handle_requests-Serves c s) [
  | inl (inl e) ↦ rw e (refl, inl refl)
  | inl (inr e) ↦ rw e (refl, inl refl)
  | inr (r, e) ↦ rw e (serve_request-Rotated r s λ message q. silent message (ap (λ x. x.0) e ∙ q))
]
