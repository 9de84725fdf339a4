-- ===== src/FileServer/Examples/Connections.antt =====
-- Whole connections to the server with the small disk (FileServer::handle_requests).
use eecs.Base.{ℕ, ◌≡◌, refl, ◌≢◌, List, [], ◌∷◌, arith, codes, bytes_eq, c_str}
use eecs.FileServer.Text.{check_request_type, find_space, after_space}
use eecs.FileServer.State.{done, returned}
use eecs.FileServer.State.Locks.{AllFree}
use eecs.FileServer.Requests.{Connection, handle_requests, header_loop, serve_header, dispatch}
use eecs.FileServer.Requests.Header.{sent, Received, header_loop-Received}
use eecs.FileServer.Requests.Words.{IsHeader, header, deletes, handle_requests-Asks}
use eecs.FileServer.Text.Spaces.{spaces}
use eecs.FileServer.Requests.Served.{handle_requests-AllFree, handle_requests-Rotated}
use eecs.FileServer.Common.{next_word, skip_spaces, take_word}
use eecs.FileServer.Handlers.{handle_delete}
use eecs.FileServer.Handlers.Atomic.{Rotated}
use eecs.FileServer.Examples.{
  small_disk, images, small_server, junk, small_disk-NoSelfEntry, small_server-AllFree,
}

-- A whole connection: the user "bob" asks for the deletion of the file.
abbrev bob_asks : List ℕ
bob_asks = codes "FS_DELETE bob /a"

abbrev bob_connects : Connection
bob_connects = record { buf = 7; header_bytes = sent bob_asks []; stack = junk; incoming = [] }

bob-IsHeader : IsHeader (codes "FS_DELETE") (codes "bob") (codes "/a") []
bob-IsHeader = record {
  words = ground arith;
  is_tail = tt;
  user_fits = omega arith;
  path_fits = omega arith;
  fits = omega arith;
  no_nul = omega arith;
}

two_spaces : spaces (header (codes "FS_DELETE") (codes "bob") (codes "/a") []) ≡ 2
two_spaces = refl

handle_requests-Asks_example :
    handle_requests bob_connects ≡ handle_delete junk (codes "bob") (codes "/a")
handle_requests-Asks_example =
    handle_requests-Asks (codes "FS_DELETE") (codes "bob") (codes "/a") [] bob_connects [] 2
      (handle_delete junk (codes "bob") (codes "/a")) deletes bob-IsHeader two_spaces refl

header_loop-Received_example : Received 7 [] bob_asks []
header_loop-Received_example = header_loop-Received 7 bob_asks [] (omega arith)

handle_requests-AllFree_example : AllFree (handle_requests bob_connects small_server).1.log
handle_requests-AllFree_example =
    handle_requests-AllFree bob_connects small_server small_disk-NoSelfEntry small_server-AllFree

bob_refused : (handle_requests bob_connects small_server).0 ≡ returned
unfolding images handle_requests header_loop serve_header dispatch check_request_type find_space
    after_space handle_delete bytes_eq c_str next_word skip_spaces take_word
bob_refused = refl

bob_silent : (message : List ℕ) → (handle_requests bob_connects small_server).0 ≢ done message
bob_silent message e = absurd (ground (arith, bob_refused))

handle_requests-Rotated_example :
    ((handle_requests bob_connects small_server).1.disk ≡ small_disk)
    × Rotated (4 ∷ 5 ∷ 6 ∷ []) (handle_requests bob_connects small_server).1.free_blocks
handle_requests-Rotated_example = handle_requests-Rotated bob_connects small_server bob_silent
