-- ===== src/Errors/Storage.antt =====
-- The constructors of the L1-Storage errors of internal/domain/errors.go.
use cloud_agent_platform.Base.{String, none, some, [], ◌∷◌}
use Prim.Native.String.{◌++◌ as str_append}
use cloud_agent_platform.Errors.{AppError, Err, nil, storage, text}
use cloud_agent_platform.Errors.Codes.{
  code_l1_db_connect, code_l1_db_query, code_l1_db_tx, code_l1_record_not_found,
  code_l1_unique_constraint, code_l1_foreign_key, code_l1_outbox_poll, code_l1_outbox_forward,
  code_l1_redis_connect, code_l1_redis_op, code_l1_redis_lock, code_l1_minio_op, code_l1_migration,
}

unfoldable pub new_l1_db_connect_error : Err → AppError
new_l1_db_connect_error cause = record {
  code = code_l1_db_connect;
  message = "database connection failed";
  layer = storage;
  details = none;
  cause = cause;
}

unfoldable pub new_l1_db_query_error : Err → AppError
new_l1_db_query_error cause = record {
  code = code_l1_db_query;
  message = "database query failed";
  layer = storage;
  details = none;
  cause = cause;
}

unfoldable pub new_l1_db_tx_error : Err → AppError
new_l1_db_tx_error cause = record {
  code = code_l1_db_tx;
  message = "database transaction failed";
  layer = storage;
  details = none;
  cause = cause;
}

unfoldable pub new_l1_record_not_found_error : String → String → AppError
new_l1_record_not_found_error entity id = record {
  code = code_l1_record_not_found;
  message = str_append entity (str_append " record not found: " id);
  layer = storage;
  details = some (("entity", text entity) ∷ ("id", text id) ∷ []);
  cause = nil;
}

unfoldable pub new_l1_unique_constraint_error : String → String → AppError
new_l1_unique_constraint_error field value = record {
  code = code_l1_unique_constraint;
  message = str_append "unique constraint violated on field: " field;
  layer = storage;
  details = some (("field", text field) ∷ ("value", text value) ∷ []);
  cause = nil;
}

unfoldable pub new_l1_foreign_key_error : String → String → AppError
new_l1_foreign_key_error field value = record {
  code = code_l1_foreign_key;
  message = str_append "foreign key constraint violated: " field;
  layer = storage;
  details = some (("field", text field) ∷ ("value", text value) ∷ []);
  cause = nil;
}

unfoldable pub new_l1_outbox_poll_error : Err → AppError
new_l1_outbox_poll_error cause = record {
  code = code_l1_outbox_poll;
  message = "outbox polling failed";
  layer = storage;
  details = none;
  cause = cause;
}

unfoldable pub new_l1_outbox_forward_error : String → Err → AppError
new_l1_outbox_forward_error event_id cause = record {
  code = code_l1_outbox_forward;
  message = str_append "outbox event forward failed: " event_id;
  layer = storage;
  details = some (("event_id", text event_id) ∷ []);
  cause = cause;
}

unfoldable pub new_l1_redis_connect_error : Err → AppError
new_l1_redis_connect_error cause = record {
  code = code_l1_redis_connect;
  message = "Redis connection failed";
  layer = storage;
  details = none;
  cause = cause;
}

unfoldable pub new_l1_redis_op_error : String → Err → AppError
new_l1_redis_op_error op cause = record {
  code = code_l1_redis_op;
  message = str_append "Redis " (str_append op " operation failed");
  layer = storage;
  details = some (("operation", text op) ∷ []);
  cause = cause;
}

unfoldable pub new_l1_redis_lock_error : String → Err → AppError
new_l1_redis_lock_error key cause = record {
  code = code_l1_redis_lock;
  message = str_append "distributed lock acquisition failed: " key;
  layer = storage;
  details = some (("lock_key", text key) ∷ []);
  cause = cause;
}

unfoldable pub new_l1_minio_op_error : String → Err → AppError
new_l1_minio_op_error op cause = record {
  code = code_l1_minio_op;
  message = str_append "MinIO " (str_append op " operation failed");
  layer = storage;
  details = some (("operation", text op) ∷ []);
  cause = cause;
}

unfoldable pub new_l1_migration_error : Err → AppError
new_l1_migration_error cause = record {
  code = code_l1_migration;
  message = "database migration failed";
  layer = storage;
  details = none;
  cause = cause;
}
