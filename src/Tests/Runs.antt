-- ===== src/Tests/Runs.antt =====
-- A put and a get, call by call.
use duro_ledger.Base.{◌≡◌, refl, true, false, some, List, [], ◌∷◌, Bytes, str, beq, ok}
use duro_ledger.Base.Int.{pos}
use duro_ledger.Os.Path.{FilePath, path_eq}
use duro_ledger.Os.State.{directory, regular, update, Os}
use duro_ledger.Os.Calls.{
  create_temp, free_name, mkdir_all, mkdir, link, chmod, fsync, close, open_file, lstat, fstat,
  follow,
}
use duro_ledger.Os.Stream.{Read, got, sink, reads_of, chunks, push_front, write as write_call}
use duro_ledger.Cas.Identity.{encode_to_string, valid_digest, digest_of}
use duro_ledger.Cas.Identity.Forms.{valid_digest_iff}
use duro_ledger.Cas.Types.{blob_path}
use duro_ledger.Cas.Types.Paths.{blob_path_lem}
use duro_ledger.Cas.Copy.{copy_chunk, copy_loop, hashing_copy}
use duro_ledger.Cas.Sync.{sync_path, sync_chain}
use duro_ledger.Cas.Read.{get, verify_blob, verify_content, verify, get_to_writer}
use duro_ledger.Cas.Write.{
  write_opened, write_file, fresh, temp_dir, write, Receipt, stage_and_publish, publish_checked,
  fill_temp, publish, publish_case, make_durable,
}
use duro_ledger.Tests.Store.{checksum, top_store, new_os}

abbrev pub hello : List Read
hello = got (str "hello") ∷ []

-- The digest of these bytes.
abbrev pub hello_digest : Bytes
hello_digest = str "1414141414141414141414141414141414141414141414141414141414141414"

abbrev pub hello_receipt : Receipt
hello_receipt = record { digest = hello_digest; size = 5; deduped = false }

abbrev pub tmp : FilePath
tmp = str "duro-put-1" ∷ str ".tmp" ∷ []

abbrev pub made_os : Os
made_os = record new_os {
  nodes = update new_os.nodes tmp (some (regular [] 384));
  names = str "2" ∷ [];
}

pub temp_runs : create_temp (temp_dir top_store) (str "duro-put-") new_os ≡ (ok tmp, made_os)
unfolding create_temp free_name path_eq beq
temp_runs = refl

abbrev pub filled_os : Os
filled_os = record made_os {
  nodes = update made_os.nodes tmp (some (regular (str "hello") 384));
  synced = tmp ∷ [];
}

pub fill_runs : fill_temp checksum top_store hello tmp made_os ≡ (ok (5, hello_digest), filled_os)
unfolding fill_temp hashing_copy copy_chunk copy_loop write_call digest_of encode_to_string fsync
    close path_eq beq
fill_runs = refl

abbrev pub dir1 : FilePath
dir1 = str "sha256" ∷ []

abbrev pub dir2 : FilePath
dir2 = str "14" ∷ dir1

abbrev pub dir3 : FilePath
dir3 = str "14" ∷ dir2

abbrev pub hello_path : FilePath
hello_path = hello_digest ∷ dir3

pub path_runs : blob_path top_store hello_digest ≡ hello_path
path_runs = blob_path_lem top_store hello_digest ((valid_digest_iff hello_digest).1 (refl, refl))

abbrev pub dirs_os : Os
dirs_os = record filled_os {
  nodes =
      update (update (update filled_os.nodes dir1 (some directory)) dir2 (some directory)) dir3
        (some directory);
}

pub dirs_run : mkdir_all dir3 filled_os ≡ (ok tt, dirs_os)
unfolding mkdir_all mkdir path_eq beq
dirs_run = refl

abbrev pub linked_os : Os
linked_os = record dirs_os {
  nodes = update dirs_os.nodes hello_path (some (regular (str "hello") 384));
}

pub link_runs : link tmp hello_path dirs_os ≡ (ok tt, linked_os)
unfolding link path_eq beq
link_runs = refl

abbrev pub published_os : Os
published_os = record linked_os {
  nodes = update linked_os.nodes hello_path (some (regular (str "hello") 292));
}

pub chmod_runs : chmod hello_path 292 linked_os ≡ (ok tt, published_os)
unfolding chmod path_eq beq
chmod_runs = refl

abbrev pub synced_os : List FilePath → Os
synced_os paths = record published_os { synced = paths }

abbrev pub all_synced : List FilePath
all_synced = [] ∷ dir1 ∷ dir2 ∷ dir3 ∷ hello_path ∷ tmp ∷ []

pub blob_synced :
    sync_path top_store hello_path published_os ≡ (ok tt, synced_os (hello_path ∷ tmp ∷ []))
unfolding sync_path open_file follow fsync path_eq beq
blob_synced = refl

pub chain_synced :
    sync_chain top_store dir3 (some []) (synced_os (hello_path ∷ tmp ∷ []))
    ≡ (ok tt, synced_os all_synced)
unfolding sync_chain sync_path open_file follow fsync path_eq beq
chain_synced = refl

pub durable_runs :
    make_durable top_store hello_digest false published_os ≡ (ok false, synced_os all_synced)
unfolding make_durable
durable_runs = rw (path_runs, blob_synced, chain_synced)

pub case_runs :
    publish_case checksum top_store hello_digest 5 fresh linked_os ≡ (ok false, published_os)
unfolding publish_case
case_runs = rw (path_runs, chmod_runs)

pub publish_runs :
    publish checksum top_store tmp hello_digest 5 filled_os ≡ (ok false, synced_os all_synced)
unfolding publish
publish_runs = rw (path_runs, dirs_run, link_runs, case_runs, durable_runs)

pub write_runs : (write checksum top_store hello new_os).0 ≡ ok hello_receipt
unfolding write stage_and_publish publish_checked
write_runs = rw (temp_runs, fill_runs, publish_runs)

abbrev pub source : FilePath
source = str "in" ∷ []

open_source : open_file source new_os ≡ (ok source, new_os)
unfolding open_file follow path_eq beq
open_source = refl

stat_source : fstat source new_os ≡ (ok (regular (str "hello") 420), new_os)
unfolding fstat path_eq beq
stat_source = refl

opened_runs : (write_opened checksum top_store source 5 new_os).0 ≡ ok hello_receipt
unfolding write_opened stage_and_publish publish_checked reads_of chunks push_front path_eq beq
opened_runs = rw (temp_runs, fill_runs, publish_runs)

pub write_file_runs : (write_file checksum top_store source new_os).0 ≡ ok hello_receipt
unfolding write_file
write_file_runs = rw (open_source, stat_source, opened_runs)

pub hello_copied : (hashing_copy checksum sink hello new_os).0 ≡ (5, ok hello_digest)
unfolding hashing_copy write_call encode_to_string digest_of copy_chunk copy_loop
hello_copied = refl

-- The blob is there.
abbrev pub stored : Os
stored = synced_os all_synced

pub hello_valid : valid_digest hello_digest ≡ true
hello_valid = (valid_digest_iff hello_digest).1 (refl, refl)

pub lstat_runs : lstat hello_path stored ≡ (ok (regular (str "hello") 292), stored)
unfolding lstat path_eq beq
lstat_runs = refl

pub open_runs : open_file hello_path stored ≡ (ok hello_path, stored)
unfolding open_file follow path_eq beq
open_runs = refl

pub get_runs : get top_store hello_digest stored ≡ (ok hello_path, stored)
unfolding get
get_runs = rw (hello_valid, path_runs, lstat_runs, open_runs)

pub content_runs : verify_content checksum hello_digest 5 hello_path stored ≡ (ok tt, stored)
unfolding verify_content reads_of chunks push_front path_eq beq hashing_copy copy_chunk copy_loop
    write_call digest_of encode_to_string
content_runs = refl

pub verify_runs : (verify checksum top_store hello_digest (pos 5) stored).0 ≡ ok tt
unfolding verify verify_blob
verify_runs = rw (hello_valid, path_runs, lstat_runs, get_runs, content_runs)

pub get_to_writer_runs : (get_to_writer checksum top_store hello_digest sink stored).0 ≡ ok tt
unfolding get_to_writer reads_of chunks push_front path_eq beq hashing_copy copy_chunk copy_loop
    write_call digest_of encode_to_string
get_to_writer_runs = rw get_runs refl
