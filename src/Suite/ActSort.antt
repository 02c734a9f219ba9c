-- ===== src/Suite/ActSort.antt =====
-- `act_queue_sort_string` of test/test-scheduler.c for any text.
use ssm_runtime.State.{State}
