-- ===== src/RecordLog.antt =====
-- src/observer/storage/record/record_log.{h,cpp}: the log entries that the changes of a record page
-- make. A payload is a `RecordLogHeader` with the bytes behind it. The log is the disk log handler,
-- whose append gives the next sequence number, or the vacuous one, whose append gives 0 and keeps
-- nothing. (LogEntry.init refuses only payloads over 4 MB, and a page has 8 KB.)
use my_mini_ob.Base.{ℕ, ◌+◌, List, [], ◌∷◌, ◌++◌}
use my_mini_ob.Base.Memory.{read_at}

pub data RecordOperation : Type 0 where
  init_page insert delete update : RecordOperation

-- `slot_num` is the union of the slot number and, for INIT_PAGE, the record size.
pub record RecordLogHeader : Type 0 where
  pub buffer_pool_id : ℕ
  pub operation_type : RecordOperation
  pub page_num : ℕ
  pub slot_num : ℕ
  pub bytes : List ℕ

pub record LogEntry : Type 0 where
  pub lsn : ℕ
  pub payload : RecordLogHeader

pub data LogHandler : Type 0 where
  vacuous : LogHandler
  disk : ℕ → List LogEntry → LogHandler

-- `append(lsn, ...)`: the sequence number, and the log afterwards
unfoldable pub append : LogHandler → RecordLogHeader → ℕ × LogHandler
append vacuous payload = (0, vacuous)
append (disk lsn entries) payload =
    (lsn + 1, disk (lsn + 1) (entries ++ (record { lsn = lsn + 1; payload = payload } ∷ [])))

pub record RecordLogHandler : Type 0 where
  pub log_handler : LogHandler
  pub buffer_pool_id : ℕ
  pub record_size : ℕ

-- The payloads of `init_new_page`, `insert_record`, `update_record` and `delete_record`.
abbrev pub init_payload : RecordLogHandler → ℕ → RecordLogHeader
init_payload log page_num = record {
  buffer_pool_id = log.buffer_pool_id;
  operation_type = init_page;
  page_num = page_num;
  slot_num = log.record_size;
  bytes = [];
}

abbrev pub insert_payload : RecordLogHandler → ℕ → ℕ → List ℕ → RecordLogHeader
insert_payload log page_num slot_num data' = record {
  buffer_pool_id = log.buffer_pool_id;
  operation_type = insert;
  page_num = page_num;
  slot_num = slot_num;
  bytes = read_at data' 0 log.record_size;
}

abbrev pub update_payload : RecordLogHandler → ℕ → ℕ → List ℕ → RecordLogHeader
update_payload log page_num slot_num data' = record {
  buffer_pool_id = log.buffer_pool_id;
  operation_type = update;
  page_num = page_num;
  slot_num = slot_num;
  bytes = read_at data' 0 log.record_size;
}

abbrev pub delete_payload : RecordLogHandler → ℕ → ℕ → RecordLogHeader
delete_payload log page_num slot_num = record {
  buffer_pool_id = log.buffer_pool_id;
  operation_type = delete;
  page_num = page_num;
  slot_num = slot_num;
  bytes = [];
}
