-- ===== src/FileData/Tests.antt =====
-- Reading a file of 7000 bytes.
use loong_os.Prelude.{
  ◌+◌, ◌/◌, ◌%◌, ◌≡◌, refl, true, not, ◌&&◌, some, ok, arith, ltb, if◌then◌else◌,
}
use loong_os.Inode.{Bytes}
use loong_os.FileData.{FileInode, Read, file_read}
use loong_os.FileData.Reading.{byte_at, file_block, straddles, file_read_lem}

abbrev inode : FileInode
inode = record { i_size = 7000; i_sectors = λ k. 100 + k }

abbrev counting : Bytes
counting a = a % 256

abbrev blank : Bytes
blank i = 0

-- The read ends in the block 12, so the byte 0 comes from the first sector of the disk.
file_read_example :
    (r : Read) × (file_read true true counting inode 100 blank 6100 ≡ ok (some r))
    × (r.bytes_read ≡ 6100)
    × (r.fd_pos ≡ 6200)
    × (r.buf 0 ≡ (
        if not (ltb 0 6100)
        then blank 0
        else if straddles (100 / 512) (6200 / 512) && ltb (100 / 512) 12
        then counting (100 % 512)
        else byte_at counting (file_block counting inode) 100))
file_read_example =
    file_read_lem counting inode 100 blank 6100 0 (omega arith) (omega arith) (omega arith) refl
