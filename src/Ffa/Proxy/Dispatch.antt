-- ===== src/Ffa/Proxy/Dispatch.antt =====
-- src/ffa/proxy.rs: `handle_ffa_call`, from the function ID to the handler.
use hypervisor.Prelude.{ℕ, true, false, ◌||◌, ◌==◌, if◌then◌else◌}
use hypervisor.Ffa.Ids.{not_supported}
use hypervisor.Ffa.Proxy.State.{Regs, Proxy, Reply, fail}
use hypervisor.Ffa.Proxy.Discovery.{
  forward_ffa_to_spmc, handle_version, handle_id_get, handle_spm_id_get, handle_run,
  handle_features, handle_rxtx_map, handle_rxtx_unmap, handle_rx_release, handle_partition_info_get,
}
use hypervisor.Ffa.Proxy.Sharing.{handle_mem_share_or_lend, handle_mem_reclaim}
use hypervisor.Ffa.Proxy.Borrowing.{handle_mem_retrieve_req, handle_mem_relinquish}
use hypervisor.Ffa.Proxy.Notify.{
  handle_notification_bitmap_create, handle_notification_bitmap_destroy, handle_notification_bind,
  handle_notification_unbind, handle_notification_set, handle_notification_get,
  handle_notification_info_get,
}
use hypervisor.Ffa.Proxy.Messages.{handle_msg_send_direct_req, handle_msg_send2, handle_msg_wait}

-- The arms of the `match`.
pub data Function : Type 0 where
  version id_get features rxtx_map rxtx_unmap rx_release partition_info_get : Function
  msg_send_direct_req mem_share mem_lend mem_reclaim mem_retrieve_req mem_relinquish : Function
  mem_donate spm_id_get run : Function
  notification_bitmap_create notification_bitmap_destroy notification_bind : Function
  notification_unbind notification_set notification_get notification_info_get : Function
  msg_send2 msg_wait unknown : Function

unfoldable pub notification_of : ℕ → Function
notification_of id =
    if id == 0x8400007D
    then notification_bitmap_create
    else (if id == 0x8400007E
        then notification_bitmap_destroy
        else (if id == 0x8400007F
            then notification_bind
            else (if id == 0x84000080
                then notification_unbind
                else (if id == 0x84000081
                    then notification_set
                    else (if id == 0x84000082
                        then notification_get
                        else (if id == 0x84000083 || id == 0xC4000083
                            then notification_info_get
                            else (if id == 0x84000086
                                then msg_send2
                                else (if id == 0x8400006B then msg_wait else unknown))))))))

unfoldable pub memory_of : ℕ → Function
unfolding notification_of
memory_of id =
    if id == 0x8400006F || id == 0xC400006F
    then msg_send_direct_req
    else (if id == 0x84000073 || id == 0xC4000073
        then mem_share
        else (if id == 0x84000072 || id == 0xC4000072
            then mem_lend
            else (if id == 0x84000077
                then mem_reclaim
                else (if id == 0x84000074 || id == 0xC4000074
                    then mem_retrieve_req
                    else (if id == 0x84000076
                        then mem_relinquish
                        else (if id == 0x84000071 || id == 0xC4000071
                            then mem_donate
                            else (if id == 0x84000085
                                then spm_id_get
                                else (if id == 0x8400006D then run else notification_of id))))))))

unfoldable pub function_of : ℕ → Function
unfolding memory_of
function_of id =
    if id == 0x84000063
    then version
    else (if id == 0x84000069
        then id_get
        else (if id == 0x84000064
            then features
            else (if id == 0xC4000066
                then rxtx_map
                else (if id == 0x84000067
                    then rxtx_unmap
                    else (if id == 0x84000065
                        then rx_release
                        else (if id == 0x84000068 then partition_info_get else memory_of id))))))

unfoldable pub call : (Regs → Regs) → Function → Regs → Proxy → Reply
call smc version r s = handle_version r s
call smc id_get r s = handle_id_get r s
call smc features r s = handle_features r s
call smc rxtx_map r s = handle_rxtx_map r s
call smc rxtx_unmap r s = handle_rxtx_unmap r s
call smc rx_release r s = handle_rx_release r s
call smc partition_info_get r s = handle_partition_info_get r s
call smc msg_send_direct_req r s = handle_msg_send_direct_req smc r s
call smc mem_share r s = handle_mem_share_or_lend r s false
call smc mem_lend r s = handle_mem_share_or_lend r s true
call smc mem_reclaim r s = handle_mem_reclaim r s
call smc mem_retrieve_req r s = handle_mem_retrieve_req r s
call smc mem_relinquish r s = handle_mem_relinquish r s
call smc mem_donate r s = fail r s not_supported
call smc spm_id_get r s = handle_spm_id_get r s
call smc run r s = handle_run smc r s
call smc notification_bitmap_create r s = handle_notification_bitmap_create r s
call smc notification_bitmap_destroy r s = handle_notification_bitmap_destroy r s
call smc notification_bind r s = handle_notification_bind r s
call smc notification_unbind r s = handle_notification_unbind r s
call smc notification_set r s = handle_notification_set r s
call smc notification_get r s = handle_notification_get r s
call smc notification_info_get r s = handle_notification_info_get r s
call smc msg_send2 r s = handle_msg_send2 r s
call smc msg_wait r s = handle_msg_wait r s
call smc unknown r s =
    if s.spmc_present then forward_ffa_to_spmc smc r s else fail r s not_supported

unfoldable pub handle_ffa_call : (Regs → Regs) → Regs → Proxy → Reply
unfolding function_of
handle_ffa_call smc r s = call smc (function_of r.x0) r s
