-- ===== src/Wire/Constants.antt =====
-- internal/smsc/constants.go: the command and status numbers that the code itself defines.
use smpp_smsc.Base.{ℕ}

abbrev pub bind_transmitter : ℕ
bind_transmitter = 0x00000002

abbrev pub bind_transmitter_resp : ℕ
bind_transmitter_resp = 0x80000002

abbrev pub bind_receiver : ℕ
bind_receiver = 0x00000001

abbrev pub bind_receiver_resp : ℕ
bind_receiver_resp = 0x80000001

abbrev pub bind_transceiver : ℕ
bind_transceiver = 0x00000009

abbrev pub bind_transceiver_resp : ℕ
bind_transceiver_resp = 0x80000009

abbrev pub unbind : ℕ
unbind = 0x00000006

abbrev pub unbind_resp : ℕ
unbind_resp = 0x80000006

abbrev pub submit_sm : ℕ
submit_sm = 0x00000004

abbrev pub submit_sm_resp : ℕ
submit_sm_resp = 0x80000004

abbrev pub deliver_sm : ℕ
deliver_sm = 0x00000005

abbrev pub deliver_sm_resp : ℕ
deliver_sm_resp = 0x80000005

abbrev pub query_sm : ℕ
query_sm = 0x00000003

abbrev pub query_sm_resp : ℕ
query_sm_resp = 0x80000003

abbrev pub replace_sm : ℕ
replace_sm = 0x00000007

abbrev pub replace_sm_resp : ℕ
replace_sm_resp = 0x80000007

abbrev pub cancel_sm : ℕ
cancel_sm = 0x00000008

abbrev pub cancel_sm_resp : ℕ
cancel_sm_resp = 0x80000008

abbrev pub enquire_link : ℕ
enquire_link = 0x00000015

abbrev pub enquire_link_resp : ℕ
enquire_link_resp = 0x80000015

abbrev pub generic_nack : ℕ
generic_nack = 0x80000000

abbrev pub status_ok : ℕ
status_ok = 0x00000000

abbrev pub status_inv_msg_len : ℕ
status_inv_msg_len = 0x00000001

abbrev pub status_inv_cmd_len : ℕ
status_inv_cmd_len = 0x00000002

abbrev pub status_inv_cmd_id : ℕ
status_inv_cmd_id = 0x00000003

abbrev pub status_inv_bnd : ℕ
status_inv_bnd = 0x00000004

abbrev pub status_aly_bnd : ℕ
status_aly_bnd = 0x00000005

abbrev pub status_inv_reg_dlv_flg : ℕ
status_inv_reg_dlv_flg = 0x00000007

abbrev pub status_sys_err : ℕ
status_sys_err = 0x00000008

abbrev pub status_inv_src_adr : ℕ
status_inv_src_adr = 0x0000000a

abbrev pub status_inv_dst_adr : ℕ
status_inv_dst_adr = 0x0000000b

abbrev pub status_inv_dest_flag : ℕ
status_inv_dest_flag = 0x00000040

abbrev pub status_inv_msg_id : ℕ
status_inv_msg_id = 0x0000000c

abbrev pub status_bind_fail : ℕ
status_bind_fail = 0x0000000d

abbrev pub status_inv_paswd : ℕ
status_inv_paswd = 0x0000000e

abbrev pub status_inv_sys_id : ℕ
status_inv_sys_id = 0x0000000f

abbrev pub status_submit_fail : ℕ
status_submit_fail = 0x00000045

abbrev pub status_inv_data_coding : ℕ
status_inv_data_coding = 0x00000010

abbrev pub status_throttled : ℕ
status_throttled = 0x00000058

abbrev pub status_inv_opt_param_val : ℕ
status_inv_opt_param_val = 0x000000c4

abbrev pub status_cancel_sm_failed : ℕ
status_cancel_sm_failed = 0x00000011

abbrev pub status_replace_sm_failed : ℕ
status_replace_sm_failed = 0x00000013

abbrev pub status_query_sm_failed : ℕ
status_query_sm_failed = 0x00000067

abbrev pub esm_class_delivery_receipt : ℕ
esm_class_delivery_receipt = 0x04
