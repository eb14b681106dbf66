-- ===== src/Cmd/UsageText.antt =====
-- The usage texts of cmd/duro.
use duro_ledger.Base.{List, [], ◌∷◌, ◌++◌, Bytes, str}
use duro_ledger.Cmd.{
  Usage, root_usage, init_usage, event_usage, event_put_usage, event_get_usage, artifact_usage,
  artifact_put_usage, artifact_get_usage,
}

-- The lines of a raw string, with a newline between each two.
abbrev text : Bytes → List Bytes → Bytes
text line [] = line
text line (l ∷ lines) = line ++ (b'\n' ∷ text l lines)

-- `rootUsage`
unfoldable pub root_text : Bytes
root_text = text (str "Duro: a PostgreSQL event ledger and filesystem artifact store.") (
    str ""
    ∷ str "Usage:"
    ∷ str "  duro init          --postgres DSN [--writer ROLE] [--reader ROLE]"
    ∷ str "  duro event put     --postgres DSN --type EVENT_TYPE [--content JSON] [--refs JSON]"
    ∷ str "  duro event get     --postgres DSN --id UUID"
    ∷ str "  duro artifact put  --postgres DSN --root DIR --file PATH"
    ∷ str "  duro artifact get  --root DIR --sha256 sha256:HEX [--out PATH]"
    ∷ str "  duro help | --help | -h"
    ∷ str ""
    ∷ str "Run \"duro <command> --help\", \"duro event <subcommand> --help\", \"duro"
    ∷ str "artifact <subcommand> --help\", or \"duro help <command>\" for details on a"
    ∷ str "specific command. See README.md for the full contract, output schemas,"
    ∷ str "error schemas, and operator setup (role provisioning SQL, compose.yaml,"
    ∷ str "PostgreSQL version requirements)."
    ∷ str ""
    ∷ str "DSN flags fall back to DURO_POSTGRES_DSN; --root flags fall back to"
    ∷ str "DURO_CAS_ROOT."
    ∷ [])

-- `initUsage`
unfoldable pub init_text : Bytes
init_text = text (str "Usage: duro init --postgres DSN [--writer ROLE] [--reader ROLE]") (
    str ""
    ∷ str "Applies Duro's canonical schema (a single \"events\" table) using an"
    ∷ str "administrator/provisioning connection. Idempotent: run again against an"
    ∷ str "already-initialized, contract-compliant database, it does nothing and"
    ∷ str "succeeds. Run against a database whose public.events table does not match"
    ∷ str "the current contract shape (for example, an older Duro schema), it returns"
    ∷ str "an error and makes no changes -- it never drops or alters existing data."
    ∷ str ""
    ∷ str "Flags:"
    ∷ str "  --postgres DSN   Administrator/provisioning PostgreSQL DSN (required)."
    ∷ str "                    Falls back to DURO_POSTGRES_DSN."
    ∷ str "  --writer ROLE    Optional: grant an existing login ROLE the minimum"
    ∷ str "                    privilege to append events (column-level INSERT on"
    ∷ str "                    event_type/content/refs only; it cannot set id,"
    ∷ str "                    received_at, or actor)."
    ∷ str "  --reader ROLE    Optional: grant an existing login ROLE SELECT on the"
    ∷ str "                    event table and nothing else."
    ∷ str ""
    ∷ str "Output (stdout, on success): {\"initialized\":true}"
    ∷ str ""
    ∷ str "Errors: connection failure, insufficient administrator privilege, or an"
    ∷ str "incompatible existing public.events table, printed to stderr with exit"
    ∷ str "code 1."
    ∷ str ""
    ∷ str "Example:"
    ∷ str "  duro init --postgres \"postgres://admin@localhost:5432/duro\" \\"
    ∷ str "    --writer duro_writer --reader duro_reader"
    ∷ [])

-- `eventUsage`
unfoldable pub event_text : Bytes
event_text = text (str "Usage: duro event put|get --help") (
    str ""
    ∷ str "Subcommands:"
    ∷ str "  put   Append one event to the canonical ledger."
    ∷ str "  get   Retrieve one event by id."
    ∷ str ""
    ∷ str "Run \"duro event put --help\" or \"duro event get --help\" for details."
    ∷ [])

-- `eventPutUsage`
unfoldable pub event_put_text : Bytes
event_put_text =
    text
      (str "Usage: duro event put --postgres DSN --type EVENT_TYPE [--content JSON] [--refs JSON]")
      (str ""
        ∷ str "Appends one event to the canonical ledger in a single database transaction."
        ∷ str "PostgreSQL assigns id (UUIDv7), received_at, and actor (the authenticated"
        ∷ str "login role); this command cannot override them. Success is only reported"
        ∷ str "after the transaction commits."
        ∷ str ""
        ∷ str "Flags:"
        ∷ str "  --postgres DSN     PostgreSQL DSN (required). Falls back to"
        ∷ str "                      DURO_POSTGRES_DSN. An ordinary writer-role DSN is"
        ∷ str "                      sufficient; no administrator privilege is needed."
        ∷ str "  --type EVENT_TYPE  Required. Nonblank, at most 255 UTF-8 bytes."
        ∷ str "  --content JSON     Optional JSON object; defaults to {}. An explicit"
        ∷ str "                      JSON null is invalid. At most 1 MiB as UTF-8"
        ∷ str "                      jsonb::text."
        ∷ str "  --refs JSON        Optional JSON object; defaults to {}. Same rules as"
        ∷ str "                      --content."
        ∷ str ""
        ∷ str "Output (stdout, on success): the complete stored event as JSON:"
        ∷ str "  {\"id\":\"...\",\"received_at\":\"...\",\"event_type\":\"...\",\"actor\":\"...\","
        ∷ str "   \"content\":{...},\"refs\":{...}}"
        ∷ str ""
        ∷ str "Errors (stderr, exit code 1): validation failures (missing/oversized"
        ∷ str "--type, malformed --content/--refs) are reported as a plain message before"
        ∷ str "any database connection is opened. A confirmed transaction failure (e.g. a"
        ∷ str "value PostgreSQL itself rejects) and a lost connection with an uncertain"
        ∷ str "commit outcome are both reported as plain messages; the process exits"
        ∷ str "nonzero either way and performs no automatic retry. Repeating the same"
        ∷ str "--type/--content/--refs creates a new, distinct event -- retrying after any"
        ∷ str "failure is an explicit, separate invocation. If the failure was a lost"
        ∷ str "connection (uncertain/\"unknown\" outcome), the original append may have"
        ∷ str "actually committed despite never confirming; retrying anyway appends a"
        ∷ str "second event regardless, so an \"unknown\" outcome can leave two observation"
        ∷ str "events for what the caller intended as one call. Only retry if a duplicate"
        ∷ str "event is acceptable, or read the ledger first to check."
        ∷ str ""
        ∷ str "Example:"
        ∷ str "  duro event put --postgres \"postgres://writer@localhost:5432/duro\" \\"
        ∷ str "    --type document.tagged --content '{\"tag\":\"reviewed\"}'"
        ∷ [])

-- `eventGetUsage`
unfoldable pub event_get_text : Bytes
event_get_text = text (str "Usage: duro event get --postgres DSN --id UUID") (
    str ""
    ∷ str "Retrieves one event by id, exactly as PostgreSQL stored it. This command"
    ∷ str "never writes to the ledger."
    ∷ str ""
    ∷ str "Flags:"
    ∷ str "  --postgres DSN   PostgreSQL DSN (required). Falls back to"
    ∷ str "                    DURO_POSTGRES_DSN. A reader-role DSN is sufficient."
    ∷ str "  --id UUID        Required. The event's id: a canonical hyphenated"
    ∷ str "                    UUIDv7 (RFC 9562 variant). Malformed ids, other UUID"
    ∷ str "                    versions, and other variants are rejected before any"
    ∷ str "                    database connection is opened."
    ∷ str ""
    ∷ str "Output (stdout, on success): the complete stored event as JSON:"
    ∷ str "  {\"id\":\"...\",\"received_at\":\"...\",\"event_type\":\"...\",\"actor\":\"...\","
    ∷ str "   \"content\":{...},\"refs\":{...}}"
    ∷ str ""
    ∷ str "Errors (stderr, exit code 1): a malformed --id is reported as a plain"
    ∷ str "message before any database connection is opened. No event with that id is"
    ∷ str "a distinct plain \"not found\" message. Other database/connection failures"
    ∷ str "are reported as plain messages."
    ∷ str ""
    ∷ str "Example:"
    ∷ str "  duro event get --postgres \"postgres://reader@localhost:5432/duro\" \\"
    ∷ str "    --id 01926a3e-1c2d-7000-8abc-0123456789ab"
    ∷ [])

-- `artifactUsage`
unfoldable pub artifact_text : Bytes
artifact_text = text (str "Usage: duro artifact put|get --help") (
    str ""
    ∷ str "Subcommands:"
    ∷ str "  put   Store a file in the content-addressed filesystem store and record"
    ∷ str "         its observation as an event."
    ∷ str "  get   Retrieve a stored file by its digest."
    ∷ str ""
    ∷ str "Run \"duro artifact put --help\" or \"duro artifact get --help\" for details."
    ∷ [])

-- `artifactPutUsage`
unfoldable pub artifact_put_text : Bytes
artifact_put_text = text (str "Usage: duro artifact put --postgres DSN --root DIR --file PATH") (
    str ""
    ∷ str "Streams --file into the content-addressed filesystem store rooted at"
    ∷ str "--root, then appends an artifact.observed event to the canonical ledger."
    ∷ str "Both steps must succeed for a full success; see \"Errors\" below for what"
    ∷ str "happens when only the first does."
    ∷ str ""
    ∷ str "Identity is sha256:<64 lowercase hex characters>. Storage is content-"
    ∷ str "addressed and deduplicated: putting bytes that already exist verifies the"
    ∷ str "existing artifact and reuses it rather than storing a second copy, but"
    ∷ str "every successful put -- including a duplicate-content put -- appends its"
    ∷ str "own new artifact.observed event."
    ∷ str ""
    ∷ str "Flags:"
    ∷ str "  --postgres DSN   PostgreSQL DSN (required). Falls back to"
    ∷ str "                    DURO_POSTGRES_DSN."
    ∷ str "  --root DIR       Content-addressed store root directory (required)."
    ∷ str "                    Falls back to DURO_CAS_ROOT. Created if missing."
    ∷ str "  --file PATH      Source file to store (required). Must be a regular"
    ∷ str "                    file whose length does not change while it is being"
    ∷ str "                    read."
    ∷ str ""
    ∷ str "Output (stdout, on full success):"
    ∷ str "  {\"digest\":\"sha256:...\",\"size_bytes\":N,"
    ∷ str
        "   \"event\":{\"id\":\"...\",\"received_at\":\"...\",\"event_type\":\"artifact.observed\","
    ∷ str "            \"actor\":\"...\",\"content\":{\"digest\":\"sha256:...\",\"size_bytes\":N,"
    ∷ str "            \"source_host\":\"...\",\"source_path\":\"/abs/path\"},\"refs\":{}}}"
    ∷ str ""
    ∷ str "Errors:"
    ∷ str "  - If storing or verifying the bytes themselves fails (read/write error,"
    ∷ str "    length mismatch, or existing-artifact corruption at that digest) before"
    ∷ str "    anything is durably linked into the store, nothing is recorded: no"
    ∷ str "    artifact, no event. Reported as a plain message to stderr, exit code 1."
    ∷ str "    In the narrow case where the bytes were already linked into place but a"
    ∷ str "    following directory-sync fails, the artifact MAY exist on disk even"
    ∷ str "    though this call reports a plain storage error and appended no event --"
    ∷ str "    content-addressing makes a later retry safe either way (see below)."
    ∷ str "  - If the bytes are stored (or verified as an existing duplicate) but the"
    ∷ str "    event append fails or its commit outcome is unknown, the artifact is"
    ∷ str "    retained on disk and a JSON error object is printed to stderr instead"
    ∷ str "    of a plain message, then the process exits 1:"
    ∷ str "      {\"digest\":\"sha256:...\",\"size_bytes\":N,\"artifact_stored\":true,"
    ∷ str "       \"event_outcome\":\"not_committed\"|\"unknown\",\"error\":\"...\"}"
    ∷ str "    Retrying \"artifact put\" with the same --file is always safe as far as"
    ∷ str "    the bytes go (they deduplicate against the digest already on disk) and"
    ∷ str "    appends a new observation event. If event_outcome was \"unknown\", the"
    ∷ str "    earlier append may have actually committed despite the lost"
    ∷ str "    acknowledgment; retrying still appends another event regardless, so an"
    ∷ str "    \"unknown\" outcome can leave two observation events on disk for what was"
    ∷ str "    intended as one put. Only retry if that duplicate is acceptable, or"
    ∷ str "    read the ledger first to check."
    ∷ str ""
    ∷ str "Side effects: creates files and up to two levels of sharding directories"
    ∷ str "under --root; no existing file under --root is ever overwritten."
    ∷ str ""
    ∷ str "Example:"
    ∷ str "  duro artifact put --postgres \"postgres://writer@localhost:5432/duro\" \\"
    ∷ str "    --root /var/lib/duro/artifacts --file ./report.pdf"
    ∷ [])

-- `artifactGetUsage`
unfoldable pub artifact_get_text : Bytes
artifact_get_text =
    text (str "Usage: duro artifact get --root DIR --sha256 sha256:HEX [--out PATH]") (
      str ""
      ∷ str "Retrieves the artifact identified by --sha256 from the content-addressed"
      ∷ str "filesystem store rooted at --root, streaming and verifying its bytes as"
      ∷ str "they are read. Reads directly against the filesystem store; no PostgreSQL"
      ∷ str "connection is used or required."
      ∷ str ""
      ∷ str "Flags:"
      ∷ str "  --root DIR       Content-addressed store root directory (required)."
      ∷ str "                    Falls back to DURO_CAS_ROOT."
      ∷ str "  --sha256 IDENT   Required. Artifact identity: sha256:<64 lowercase hex"
      ∷ str "                    characters>. Malformed identities are rejected."
      ∷ str "  --out PATH       Optional destination file path. If omitted, bytes are"
      ∷ str "                    written to stdout. PATH must not already exist: an"
      ∷ str "                    existing destination is never overwritten."
      ∷ str ""
      ∷ str "Output:"
      ∷ str "  --out given, success: {\"digest\":\"sha256:...\",\"path\":\"...\"} on stdout."
      ∷ str "  --out omitted: the artifact's raw bytes on stdout. A terminal error"
      ∷ str "    (corruption, missing artifact, read failure, or interrupted transfer)"
      ∷ str "    is always reported with a nonzero exit even if some bytes were already"
      ∷ str "    written to stdout -- partial stdout output is never a valid artifact."
      ∷ str ""
      ∷ str "Errors (stderr, exit code 1): malformed digest, artifact not found,"
      ∷ str "verification failure (streamed bytes do not hash to the requested digest --"
      ∷ str "there is no separate size catalog to check against), or --out already"
      ∷ str "existing."
      ∷ str ""
      ∷ str "Example:"
      ∷ str "  duro artifact get --root /var/lib/duro/artifacts \\"
      ∷ str
          "    --sha256 sha256:9f86d081884c7d659a2feaa0c55ad015a3bf4f1b2b0b822cd15d6c15b0f00a08 \\"
      ∷ str "    --out ./report.pdf"
      ∷ [])

unfoldable pub usage_text : Usage → Bytes
usage_text root_usage = root_text
usage_text init_usage = init_text
usage_text event_usage = event_text
usage_text event_put_usage = event_put_text
usage_text event_get_usage = event_get_text
usage_text artifact_usage = artifact_text
usage_text artifact_put_usage = artifact_put_text
usage_text artifact_get_usage = artifact_get_text
