-- ===== src/Examples/Volumes.antt =====
-- Files, with a library that opens every file for reading and counts the calls.
use demo_os.Base.{ℕ, ◌+◌, refl, arith, [], ◌∷◌, ◌==◌, if◌then◌else◌, Returns}
use demo_os.Base.Int.{pos, negsuc}
use demo_os.Process.{null}
use demo_os.Kernel.{Algorithm, boot}
use demo_os.Files.{FatLibrary, ResourceType, Files}
use demo_os.Files.Calls.{syscall_open_file}
use demo_os.Files.Exec.{start_program}
use demo_os.Files.Exec.Arguments.{Started, start_program-Started}
use demo_os.Files.Opening.{HasRoom, Opened, syscall_open_file-Opened}

abbrev counting : FatLibrary ℕ
counting = record {
  fat_file_open = λ file path flags d. if flags == 2 then (pos 0, d + 1) else (negsuc 6, d);
  fat_file_close = λ file d. (pos 0, d + 1);
  fat_file_read = λ file len d. (pos 0, 72 ∷ 105 ∷ [], d + 1);
  fat_file_write = λ file buffer d. (negsuc 6, 0, d);
  fat_file_seek = λ file offset seek d. (pos 0, d + 1);
  fat_dir_create = λ dir path d. (negsuc 6, d);
  fat_dir_open = λ dir path d. (pos 0, d + 1);
  fat_dir_read = λ dir d. (pos 0, record { name = 97 ∷ []; attr = 16 }, d + 1);
  fat_dir_next = λ dir d. (pos 0, d + 1);
}

abbrev unopened : Files ℕ
unopened = record {
  kernel = boot Algorithm.round_robin (λ n. n);
  disk = 0;
  resources = λ p. record { resource_type = ResourceType.resource_type_file; target = null };
}

unopened-HasRoom : HasRoom unopened.kernel
unopened-HasRoom = record {
  one = 0;
  other = 1;
  distinct = ground arith;
  one_in = ground arith;
  other_in = ground arith;
  one_free = refl;
  other_free = refl;
  current_kept = λ i hi free e. absurd (omega arith);
  n_files = refl;
}

syscall_open_file-Opened_example :
    Returns (Opened counting (97 ∷ []) 2 unopened) (syscall_open_file counting (97 ∷ []) 2 unopened)
syscall_open_file-Opened_example =
    syscall_open_file-Opened counting (97 ∷ []) 2 unopened unopened-HasRoom

-- Two arguments, "a" and "bc".
start_program-Started_example :
    let r = start_program ((97 ∷ []) ∷ (98 ∷ 99 ∷ []) ∷ []) (λ _. 5) (λ _. 0) unopened.kernel in
    Started ((97 ∷ []) ∷ (98 ∷ 99 ∷ []) ∷ []) (λ _. 0) unopened.kernel r.0 r.1
start_program-Started_example =
    start_program-Started ((97 ∷ []) ∷ (98 ∷ 99 ∷ []) ∷ []) (λ _. 5) (λ _. 0) unopened.kernel
      (omega arith)
      (((ground arith, tt), omega arith), (((ground arith, (ground arith, tt)), omega arith), tt))
