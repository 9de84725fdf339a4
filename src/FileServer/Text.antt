-- ===== src/FileServer/Text.antt =====
-- The text functions: `find_space` and `isblock` of Project4/utils.cpp, `path_parser` and
-- `check_request_type` of Project4/file_server.cpp, and what they use of the standard streams.
pub mod Spaces
pub mod Blocks
pub mod Paths
use eecs.Base.{
  ℕ, zero, suc, ◌+◌, ◌-◌, ◌*◌, ◌^◌, ◌≡◌, Bool, true, false, not, ◌&&◌, ◌||◌, Option, none, some,
  List, [], ◌∷◌, ◌++◌, length, codes, bytes_eq, ltb, leb, ◌==◌, if◌then◌else◌,
}
use eecs.FileServer.Params.{fs_maxfilename}

-- What follows the first space of a text, as `find(' ', pos)` finds it.
unfoldable pub after_space : List ℕ → Option (List ℕ)
after_space [] = none
after_space (c ∷ s) = if c == b' ' then some s else after_space s

find_space_loop : ℕ → List ℕ → ℕ → ℕ
find_space_loop zero s cnt = cnt
find_space_loop (suc fuel) s cnt = elim (after_space s) [
  | none ↦ cnt
  | some rest ↦ find_space_loop fuel rest (cnt + 1)
]

unfoldable pub find_space : List ℕ → ℕ
unfolding find_space_loop after_space
find_space req_header = find_space_loop (length req_header) req_header 0

-- std::isdigit in the C locale.
abbrev pub isdigit : ℕ → Bool
isdigit c = leb b'0' c && leb c b'9'

unfoldable pub all_digits : List ℕ → Bool
all_digits [] = true
all_digits (c ∷ s) = isdigit c && all_digits s

unfoldable pub isblock : List ℕ → Bool
unfolding all_digits
isblock str = if ltb 3 (length str) then false else all_digits str

-- The value of a text of digits, from the value read so far.
unfoldable pub stoi_from : ℕ → List ℕ → ℕ
stoi_from acc [] = acc
stoi_from acc (c ∷ s) = stoi_from (acc * 10 + (c - b'0')) s

-- std::stoi on a text of digits: `none` for an exception, std::invalid_argument if there is no digit
-- and std::out_of_range if the value is no int.
unfoldable pub stoi : List ℕ → Option ℕ
unfolding stoi_from
stoi [] = none
stoi (c ∷ s) = let value = stoi_from 0 (c ∷ s) in if ltb value (2 ^ 31) then some value else none

-- The text up to the next slash, and what follows that slash.
unfoldable pub until_slash : List ℕ → List ℕ × List ℕ
until_slash [] = ([], [])
until_slash (c ∷ s) =
    let (piece, rest) = until_slash s in if c == b'/' then ([], s) else (c ∷ piece, rest)

-- std::getline with '/' for a delimiter: it fails at the end of the stream only.
unfoldable pub getline : List ℕ → Option (List ℕ × List ℕ)
unfolding until_slash
getline [] = none
getline (c ∷ s) = some (until_slash (c ∷ s))

-- A path component that the parser takes.
abbrev pub name_ok : List ℕ → Bool
name_ok tmp = not (ltb fs_maxfilename (length tmp) || length tmp == 0)

-- One round's check and `push_back`; `none` stands for `return false`.
abbrev pub push_name : List ℕ → Option (List (List ℕ)) → Option (List (List ℕ))
push_name tmp none = none
push_name tmp (some names) = if name_ok tmp then some (tmp ∷ names) else none

-- The while loop of `path_parser`. A name that is refused makes the whole parse fail.
parse_loop : ℕ → List ℕ → Option (List (List ℕ))
parse_loop zero stream = none
parse_loop (suc fuel) stream = elim (getline stream) [
  | none ↦ some []
  | some (tmp, rest) ↦ push_name tmp (parse_loop fuel rest)
]

abbrev pub last_is_slash : List ℕ → Bool
last_is_slash [] = false
last_is_slash (c ∷ []) = c == b'/'
last_is_slash (c ∷ d ∷ s) = last_is_slash (d ∷ s)

abbrev pub first_is_slash : List ℕ → Bool
first_is_slash [] = false
first_is_slash (c ∷ s) = c == b'/'

-- The first `getline` reads the empty piece before the leading slash.
unfoldable pub path_parser : List ℕ → Option (List (List ℕ))
unfolding parse_loop getline
path_parser pathname =
    if not (first_is_slash pathname) || last_is_slash pathname
    then none
    else elim (getline pathname) [
      | none ↦ some []
      | some (tmp, rest) ↦ parse_loop (suc (length rest)) rest
    ]

unfoldable pub check_request_type : List ℕ → List ℕ → ℕ
check_request_type request_type req_header =
    if bytes_eq request_type (codes "FS_READBLOCK")
    then (if find_space req_header == 3 then 1 else 0)
    else if bytes_eq request_type (codes "FS_WRITEBLOCK")
    then (if find_space req_header == 3 then 2 else 0)
    else if bytes_eq request_type (codes "FS_CREATE")
    then (if find_space req_header == 3 then 3 else 0)
    else if bytes_eq request_type (codes "FS_DELETE")
    then (if find_space req_header == 2 then 4 else 0)
    else 0
