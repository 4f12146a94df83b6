-- ===== src/Net/HeaderCmd.antt =====
-- base/headerCmd.h.
use grit.Common.{ℕ}

abbrev pub k_get_txid : ℕ
k_get_txid = 101

abbrev pub k_txid : ℕ
k_txid = 103

abbrev pub k_start_tran : ℕ
k_start_tran = 102

abbrev pub k_add : ℕ
k_add = 104

abbrev pub k_change : ℕ
k_change = 105

abbrev pub k_delete : ℕ
k_delete = 106

abbrev pub k_search : ℕ
k_search = 107

abbrev pub k_commit : ℕ
k_commit = 108

abbrev pub k_data : ℕ
k_data = 109

abbrev pub k_tran_success : ℕ
k_tran_success = 110

abbrev pub k_tran_fail : ℕ
k_tran_fail = 111

abbrev pub k_judge_conflit : ℕ
k_judge_conflit = 112

abbrev pub k_lsn : ℕ
k_lsn = 113

abbrev pub k_exec_tran_succ : ℕ
k_exec_tran_succ = 114

abbrev pub k_exec_tran_fail : ℕ
k_exec_tran_fail = 115

abbrev pub k_log : ℕ
k_log = 116
