-- ===== src/FileServer/Params.antt =====
-- Project4/fs_param.h and the constants of Project4/fs_server.h.
use eecs.Base.{ℕ}

abbrev pub fs_blocksize : ℕ
fs_blocksize = 512

abbrev pub fs_maxfileblocks : ℕ
fs_maxfileblocks = 124

abbrev pub fs_maxfilename : ℕ
fs_maxfilename = 59

abbrev pub fs_maxpathname : ℕ
fs_maxpathname = 128

abbrev pub fs_maxusername : ℕ
fs_maxusername = 10

abbrev pub fs_disksize : ℕ
fs_disksize = 4096

-- FS_BLOCKSIZE / sizeof(fs_direntry), where a direntry has 60 + 4 bytes.
abbrev pub fs_direntries : ℕ
fs_direntries = 8
