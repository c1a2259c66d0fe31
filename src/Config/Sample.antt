-- ===== src/Config/Sample.antt =====
-- code/configuration.cpp: values for tests, those of the source but for CHAINS and the size of a block.
use ohie.Base.{false}
use ohie.Config.{Config}

abbrev pub sample : Config
sample = record {
  at = 960;
  d = 240;
  chains = 2;
  ask_for_incomplete_individual_milliseconds = 2000;
  no_asks_before_removing = 600;
  ask_for_full_blocks_individual_each_milliseconds = 2000;
  max_wait_for_full_block_millseconds = 20000;
  max_ask_non_full_in_one_go = 100;
  address_size_in_dwords = 5;
  max_ask_blocks = 4;
  print_transmission_errors = false;
  block_size_in_bytes = 20;
  t_discard = 6;
}
