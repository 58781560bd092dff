-- ===== src/Protocol/Constants.antt =====
-- packages/protocol/src/constants.ts: the limits that the modelled code reads.
use copy_clipboard_app.Base.{ℕ, ◌*◌}

abbrev pub max_line_bytes : ℕ
max_line_bytes = 1_048_576

abbrev pub secret_ttl_ms : ℕ
secret_ttl_ms = 300_000

abbrev pub retention_max_items : ℕ
retention_max_items = 500

abbrev pub retention_max_bytes : ℕ
retention_max_bytes = 512 * 1024 * 1024

abbrev pub preview_max_chars : ℕ
preview_max_chars = 512

abbrev pub title_max_chars : ℕ
title_max_chars = 120

abbrev pub tag_max_chars : ℕ
tag_max_chars = 24

abbrev pub tags_max_per_item : ℕ
tags_max_per_item = 8

abbrev pub tabs_max : ℕ
tabs_max = 32

abbrev pub max_rep_bytes : ℕ
max_rep_bytes = 20_971_520

abbrev pub rep_stream_timeout_ms : ℕ
rep_stream_timeout_ms = 5_000

abbrev pub max_concurrent_rep_streams : ℕ
max_concurrent_rep_streams = 8

abbrev pub search_index_default : ℕ
search_index_default = 500

abbrev pub search_index_hard_cap : ℕ
search_index_hard_cap = 2_000

abbrev pub chunk_payload_bytes : ℕ
chunk_payload_bytes = 32_768

abbrev pub max_write_reps : ℕ
max_write_reps = 8

abbrev pub max_write_bytes : ℕ
max_write_bytes = 64 * 1024 * 1024

abbrev pub write_transfer_timeout_ms : ℕ
write_transfer_timeout_ms = 30_000
