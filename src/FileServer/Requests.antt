-- ===== src/FileServer/Requests.antt =====
-- `handle_requests` of Project4/file_server.cpp: one connection, from its first byte to its close.
pub mod Header
pub mod Words
pub mod Served
use eecs.Base.{
  ℕ, ◌+◌, ◌≡◌, Bool, true, false, not, ◌||◌, List, [], ◌∷◌, ◌++◌, Option, none, some, length, ◌==◌,
  ltb, if◌then◌else◌,
}
use eecs.FileServer.Params.{fs_maxusername, fs_maxpathname}
use eecs.FileServer.Text.{check_request_type}
use eecs.FileServer.State.{
  Server, Outcome, M, ◌>>=◌, ◌>>◌, pure, leave, or_leave, require, done, returned, crashed,
}
use eecs.FileServer.Common.{Stack, next_word}
use eecs.FileServer.Handlers.{Recv, Request, create, delete, readblock, writeblock, serve_request}

-- What a `recv` of one byte does: that byte, the end of the stream (0), or an error (-1).
pub data RecvByte : Type 0 where
  byte : ℕ → RecvByte
  eof : RecvByte
  error : RecvByte

abbrev pub max_header_len : ℕ
max_header_len = 13 + fs_maxusername + fs_maxpathname + 3 + 3

-- The receiving loop, with the content of `buf` and the header so far, whose length is `recvd`. A
-- list of calls that ends stands for a stream that is closed there.
unfoldable pub header_loop : ℕ → List ℕ → List RecvByte → M (List ℕ)
header_loop buf req_header [] = if buf == 0 then pure req_header else leave
header_loop buf req_header (eof ∷ more) = if buf == 0 then pure req_header else leave
header_loop buf req_header (error ∷ more) = if buf == 0 then pure req_header else λ s. (crashed, s)
header_loop buf req_header (byte c ∷ more) = elim (c == 0) [
  | true ↦ pure req_header
  | false ↦ elim (ltb max_header_len (length (req_header ++ c ∷ []))) [
    | true ↦ leave
    | false ↦ header_loop c (req_header ++ c ∷ []) more
  ]
]

-- What a connection brings: the bytes before the handler runs and the content of `buf` before them,
-- the handler's locals, and what the handler receives.
pub record Connection : Type 0 where
  pub buf : ℕ
  pub header_bytes : List RecvByte
  pub stack : Stack
  pub incoming : List Recv

-- The switch on the request's type.
unfoldable pub dispatch : Connection → ℕ → List ℕ → List ℕ → List ℕ → M (List ℕ)
dispatch c type req username pathname =
    if type == 1
    then serve_request (readblock req username pathname)
    else if type == 2
    then serve_request (writeblock c.stack req c.incoming username pathname)
    else if type == 3
    then serve_request (create c.stack req username pathname)
    else if type == 4
    then serve_request (delete c.stack username pathname)
    else leave

-- What follows the receiving loop.
unfoldable pub serve_header : Connection → List ℕ → M (List ℕ)
unfolding dispatch
serve_header c req_header = do
  (request_type, rest) ← or_leave (next_word req_header)
  (username, rest2) ← or_leave (next_word rest)
  (pathname, req) ← or_leave (next_word rest2)
  require (not (ltb fs_maxusername (length username) || ltb fs_maxpathname (length pathname)))
  dispatch c (check_request_type request_type req_header) req username pathname

unfoldable pub handle_requests : Connection → M (List ℕ)
unfolding serve_header header_loop
handle_requests c = do req_header ← header_loop c.buf [] c.header_bytes; serve_header c req_header
