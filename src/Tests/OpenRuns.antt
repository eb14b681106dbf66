-- ===== src/Tests/OpenRuns.antt =====
-- Opening a store that has a blob, and a get on it, call by call.
use duro_ledger.Base.{◌≡◌, refl, some, [], ◌∷◌, str, beq, ok, err}
use duro_ledger.Os.Path.{FilePath, path_eq, join, enter_all, enter}
use duro_ledger.Os.State.{not_exist, regular, Os, update}
use duro_ledger.Os.Calls.{fsync, open_file, lstat, follow, create_temp, free_name, close, link}
use duro_ledger.Os.Resolve.{look_names, look, real, mkdir_all_real, walk_names, walk, eval_symlinks}
use duro_ledger.Os.Stream.{sink, reads_of, chunks, push_front, write as write_call}
use duro_ledger.Cas.Identity.{encode_to_string, digest_of}
use duro_ledger.Cas.Copy.{copy_chunk, copy_loop, hashing_copy}
use duro_ledger.Cas.Sync.{sync_path, sync_chain}
use duro_ledger.Cas.Open.{sync_dirs, open_at, open_dir}
use duro_ledger.Cas.Read.{get, get_to_writer, get_through_temp, get_to_file}
use duro_ledger.Tests.Store.{checksum, top_store}
use duro_ledger.Tests.Runs.{
  dir1, all_synced, synced_os, stored, hello_digest, hello_path, hello_valid, path_runs, get_runs,
}

abbrev scratch : FilePath
scratch = str ".tmp" ∷ []

blob_dir_there : mkdir_all_real dir1 stored ≡ (ok tt, stored)
unfolding mkdir_all_real real look look_names path_eq beq
blob_dir_there = refl

scratch_there : mkdir_all_real scratch stored ≡ (ok tt, stored)
unfolding mkdir_all_real real look look_names path_eq beq
scratch_there = refl

root_real : eval_symlinks [] stored ≡ (ok [], stored)
unfolding eval_symlinks walk walk_names
root_real = refl

abbrev pub ready_os : Os
ready_os = synced_os ([] ∷ scratch ∷ [] ∷ dir1 ∷ all_synced)

dirs_synced : sync_dirs [] stored ≡ (ok tt, ready_os)
unfolding sync_dirs sync_chain sync_path open_file follow fsync path_eq beq
dirs_synced = refl

at_top : open_at [] stored ≡ (ok top_store, ready_os)
unfolding open_at
at_top = rw (blob_dir_there, scratch_there, root_real, dirs_synced) refl

pub open_top_runs : open_dir (λ p. ok p) (str "/") stored ≡ (ok top_store, ready_os)
unfolding open_dir join enter_all enter beq
open_top_runs = at_top

lstat_ready_runs : lstat hello_path ready_os ≡ (ok (regular (str "hello") 292), ready_os)
unfolding lstat path_eq beq
lstat_ready_runs = refl

open_ready_runs : open_file hello_path ready_os ≡ (ok hello_path, ready_os)
unfolding open_file follow path_eq beq
open_ready_runs = refl

get_ready_runs : get top_store hello_digest ready_os ≡ (ok hello_path, ready_os)
unfolding get
get_ready_runs = rw (hello_valid, path_runs, lstat_ready_runs, open_ready_runs)

pub get_to_writer_ready_runs :
    (get_to_writer checksum top_store hello_digest sink ready_os).0 ≡ ok tt
unfolding get_to_writer reads_of chunks push_front path_eq beq hashing_copy copy_chunk copy_loop
    write_call digest_of encode_to_string
get_to_writer_ready_runs = rw get_ready_runs refl

-- A get to the new file `/copy`.
abbrev pub copy : FilePath
copy = str "copy" ∷ []

abbrev get_tmp : FilePath
get_tmp = str "duro-get-2" ∷ []

abbrev copying_os : Os
copying_os = record stored {
  nodes = update stored.nodes get_tmp (some (regular [] 384));
  names = [];
}

absent_runs : lstat copy stored ≡ (err not_exist, stored)
unfolding lstat path_eq beq
absent_runs = refl

get_temp_runs : create_temp [] (str "duro-get-") stored ≡ (ok get_tmp, copying_os)
unfolding create_temp free_name path_eq beq
get_temp_runs = refl

through_runs :
    (get_through_temp checksum top_store hello_digest copy hello_path get_tmp copying_os).0 ≡ ok tt
unfolding get_through_temp reads_of chunks push_front path_eq beq hashing_copy copy_chunk copy_loop
    write_call digest_of encode_to_string fsync close link sync_path open_file follow
through_runs = refl

pub get_to_file_runs : (get_to_file checksum top_store hello_digest copy stored).0 ≡ ok tt
unfolding get_to_file
get_to_file_runs = rw (absent_runs, get_runs, get_temp_runs, through_runs) refl
