-- ===== src/Storage/Queue/Methods.antt =====
-- The methods of the two queues by the names that they have for each.
use cke.Prelude.{ℕ, String, Bool, List}
use cke.Reboot.{RebootQueueEntry}
use cke.Repair.{RepairQueueEntry}
use cke.Etcd.{Etcd, Call}
use cke.Storage.{Codec}
use cke.Storage.Queue.{
  reboots, repairs, register_entry, update_entry, get_entry, get_entries, delete_entry,
  is_queue_disabled, enable_queue,
}

module _ (E : Etcd) (codec : Codec RebootQueueEntry) where
  unfoldable pub register_reboots_entry : ℕ → RebootQueueEntry → Call E Unit
  register_reboots_entry = register_entry E (reboots codec)

  unfoldable pub update_reboots_entry : ℕ → RebootQueueEntry → Call E Unit
  update_reboots_entry = update_entry E (reboots codec)

  unfoldable pub get_reboots_entry : ℕ → Call E RebootQueueEntry
  get_reboots_entry = get_entry E (reboots codec)

  unfoldable pub get_reboots_entries : Call E (List RebootQueueEntry)
  get_reboots_entries = get_entries E (reboots codec)

  unfoldable pub delete_reboots_entry : String → ℕ → Call E Unit
  delete_reboots_entry = delete_entry E (reboots codec)

  unfoldable pub is_reboot_queue_disabled : Call E Bool
  is_reboot_queue_disabled = is_queue_disabled E (reboots codec)

  unfoldable pub enable_reboot_queue : Bool → Call E Unit
  enable_reboot_queue = enable_queue E (reboots codec)

module _ (E : Etcd) (codec : Codec RepairQueueEntry) where
  unfoldable pub register_repairs_entry : ℕ → RepairQueueEntry → Call E Unit
  register_repairs_entry = register_entry E (repairs codec)

  unfoldable pub update_repairs_entry : ℕ → RepairQueueEntry → Call E Unit
  update_repairs_entry = update_entry E (repairs codec)

  unfoldable pub get_repairs_entry : ℕ → Call E RepairQueueEntry
  get_repairs_entry = get_entry E (repairs codec)

  unfoldable pub get_repairs_entries : Call E (List RepairQueueEntry)
  get_repairs_entries = get_entries E (repairs codec)

  unfoldable pub delete_repairs_entry : String → ℕ → Call E Unit
  delete_repairs_entry = delete_entry E (repairs codec)

  unfoldable pub is_repair_queue_disabled : Call E Bool
  is_repair_queue_disabled = is_queue_disabled E (repairs codec)

  unfoldable pub enable_repair_queue : Bool → Call E Unit
  enable_repair_queue = enable_queue E (repairs codec)
