-- ===== src/Buffer/Tests.antt =====
-- The theorems about `Buffer` at concrete buffers, and runs of its operations.
use solar_net.Base.{◌<◌, ◌≤◌, ◌≡◌, refl, List, [], ◌∷◌, ◌++◌, arith}
use solar_net.Bytes.{big}
use solar_net.Buffer.{
  Buffer, IsValid, contents, readable_bytes, writable_bytes, ensure_writable_bytes, prepend,
}
use solar_net.Buffer.Space.{ensure_writable_bytes_lem}
use solar_net.Buffer.Faults.{prepend_overflow}
use solar_net.Buffer.Queue.{
  Call, appends, retrieves, reads, reads_all, reserves, run, queue_run, run_refines,
}
use solar_net.Buffer.Ints.{append_network, read_network, read_network-append_network}
use solar_net.Buffer.Io.{read_fd, read_fd_lem, received}

-- "hi" at offset 10 of 16 bytes
abbrev small : Buffer
small = record {
  bytes = 0 ∷ 0 ∷ 0 ∷ 0 ∷ 0 ∷ 0 ∷ 0 ∷ 0 ∷ 7 ∷ 7 ∷ 104 ∷ 105 ∷ 0 ∷ 0 ∷ 0 ∷ 0 ∷ [];
  reader_index = 10;
  writer_index = 12;
}

small-IsValid : IsValid small
small-IsValid = omega arith

-- Nothing but the prepend area, of which half is used.
abbrev full : Buffer
full = record { bytes = 0 ∷ 0 ∷ 0 ∷ 0 ∷ 1 ∷ 2 ∷ 3 ∷ 4 ∷ []; reader_index = 4; writer_index = 8 }

full-IsValid : IsValid full
full-IsValid = omega arith

abbrev empty : Buffer
empty = record small { reader_index = 12 }

empty-IsValid : IsValid empty
empty-IsValid = omega arith

abbrev calls : List Call
calls = appends (33 ∷ 33 ∷ []) ∷ reserves 100 ∷ retrieves 1 ∷ reads 2 ∷ reads_all ∷ []

run_example : run small calls ≡ queue_run (104 ∷ 105 ∷ []) calls
run_example = run_refines calls small small-IsValid (omega arith)

queue_run_runs :
    queue_run (104 ∷ 105 ∷ []) calls ≡ ([] ∷ [] ∷ [] ∷ (105 ∷ 33 ∷ []) ∷ (33 ∷ []) ∷ [], [])
unfolding queue_run
queue_run_runs = refl

read_network-append_network_example :
    ((read_network big 8 (append_network big 8 empty 77)).0 ≡ 77)
    × (contents (read_network big 8 (append_network big 8 empty 77)).1 ≡ [])
read_network-append_network_example =
    read_network-append_network big 8 empty 77 empty-IsValid (omega arith) refl (omega arith)

ensure_writable_bytes_lem_example : 100 ≤ writable_bytes (ensure_writable_bytes small 100)
ensure_writable_bytes_lem_example =
    (ensure_writable_bytes_lem small 100 small-IsValid (omega arith)).2

prepend_overflow_example : 8 < (prepend full (1 ∷ 2 ∷ 3 ∷ 4 ∷ 5 ∷ [])).writer_index
unfolding readable_bytes
prepend_overflow_example =
    prepend_overflow full (1 ∷ 2 ∷ 3 ∷ 4 ∷ 5 ∷ []) full-IsValid (omega arith) (omega arith)
      (omega arith)

read_fd_lem_example :
    contents (read_fd small (received (1 ∷ 2 ∷ 3 ∷ 4 ∷ 5 ∷ []))).0
    ≡ (104 ∷ 105 ∷ []) ++ (1 ∷ 2 ∷ 3 ∷ 4 ∷ 5 ∷ [])
read_fd_lem_example = (read_fd_lem small (1 ∷ 2 ∷ 3 ∷ 4 ∷ 5 ∷ []) small-IsValid (omega arith)).1
