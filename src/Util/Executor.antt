-- ===== src/Util/Executor.antt =====
-- include/boost/connector/util/check_executor.hpp and src/util/check_executor.cpp. An executor is its type,
-- and whether the thread that asks runs in it.
use boost_connector.Base.{Bool, true}

pub data ExecutorType : Type 0 where
  io_context io_context_strand thread_pool thread_pool_strand unknown : ExecutorType

pub record Executor : Type 0 where
  pub target_type : ExecutorType
  pub running_in_this_thread : Bool

abbrev check_target : ExecutorType → Bool → Bool
check_target unknown running = true
check_target _ running = running

unfoldable pub check_executor : Executor → Bool
check_executor e = check_target e.target_type e.running_in_this_thread
