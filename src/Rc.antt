-- ===== src/Rc.antt =====
-- src/observer/common/rc.h: the return codes, and the test on them.
use my_mini_ob.Base.{Bool, true, false}

pub data Rc : Type 0 where
  success null_value unimplenment sql_syntax internal nomem notfound empty full exist : Rc
  not_exist bufferpool_open bufferpool_nobuf bufferpool_invalid_page_num record_openned : Rc
  record_invalid_rid record_invalid_key record_duplicate_key record_nomem record_eof : Rc
  record_not_exist record_invisible schema_db_exist schema_db_not_exist schema_db_not_opened : Rc
  schema_table_not_exist schema_table_exist schema_field_ambiguous schema_field_not_exist : Rc
  schema_field_missing schema_field_type_mismatch schema_field_non_null : Rc
  schema_index_name_repeat subquery_more_than_one_row subquery_more_than_one_col : Rc
  alias_not_exist insert_value_toolong update_value_too_long ioerr_read ioerr_write : Rc
  ioerr_access ioerr_open ioerr_delete ioerr_close ioerr_seek ioerr_too_long ioerr_sync : Rc
  incorrect_date_value incorrect_date_format invalid_argument invalid_aggregate : Rc
  invalid_grouping invalid_function_name locked_unlock locked_need_wait : Rc
  locked_concurrency_conflict file_exist file_not_exist file_name file_bound file_create : Rc
  file_open file_not_opened file_close file_remove variable_not_exists variable_not_valid : Rc
  logbuf_full log_file_full log_entry_invalid : Rc

-- `OB_SUCC(rc)`
abbrev pub ob_succ : Rc → Bool
ob_succ success = true
ob_succ _ = false
