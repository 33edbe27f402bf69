-- ===== src/FileTransfer.antt =====
-- src/hotline/file_transfer.c and include/hotline/file_transfer.h: the transfers that wait for their
-- connection, in 128 slots. Each function holds the manager's mutex throughout.
pub mod Laws
mod Tests
use lemoniscate.Common.{
  ℕ, Bool, true, false, if◌then◌else◌, Option, none, some, List, [], ◌∷◌, replicate,
}
use lemoniscate.Common.Int.{ℤ, pos}
use lemoniscate.Wire.{Bytes2, Bytes4, eq4}
use lemoniscate.FileResume.{ResumeData}

abbrev pub max_file_transfers : ℕ
max_file_transfers = 128

-- `hl_file_transfer_t`; an array with a length is the bytes that the length counts, and `client_conn`
-- the pointer.
pub record Transfer : Type 0 where
  pub file_root : List ℕ
  pub file_name : List ℕ
  pub file_path_data : List ℕ
  pub ref_num : Bytes4
  pub type : ℤ
  pub transfer_size : Bytes4
  pub folder_item_count : Bytes2
  pub resume_data : Option ResumeData
  pub client_conn : ℕ
  pub active : Bool
  pub ft_aead : Bool
  pub ft_base_key : List ℕ

abbrev pub has_ref : Transfer → Bytes4 → Bool
has_ref t id = if t.active then eq4 t.ref_num id else false

-- The first slot that is not in use is taken; if there is none, nothing changes.
unfoldable pub put : List Transfer → Transfer → List Transfer
put [] ft = []
put (t ∷ ts) ft = if t.active then t ∷ put ts ft else ft ∷ ts

-- `random_ref` is what `random_ref_num` draws. The slots, and the caller's transfer afterwards.
unfoldable pub add : List Transfer → Transfer → Bytes4 → List Transfer × Transfer
add transfers ft random_ref =
    let ft' : Transfer = record ft { ref_num = random_ref; active = true } in
    (put transfers ft', ft')

unfoldable pub get : List Transfer → Bytes4 → Option Transfer
get [] id = none
get (t ∷ ts) id = if has_ref t id then some t else get ts id

unfoldable pub del : List Transfer → Bytes4 → List Transfer
del [] id = []
del (t ∷ ts) id =
    if has_ref t id then record t { resume_data = none; active = false } ∷ ts else t ∷ del ts id

-- A slot of the `calloc`ed manager.
abbrev pub unused : Transfer
unused = record {
  file_root = [];
  file_name = [];
  file_path_data = [];
  ref_num = (0, 0, 0, 0);
  type = pos 0;
  transfer_size = (0, 0, 0, 0);
  folder_item_count = (0, 0);
  resume_data = none;
  client_conn = 0;
  active = false;
  ft_aead = false;
  ft_base_key = replicate 32 0;
}

unfoldable pub mem_xfer_mgr_new : List Transfer
mem_xfer_mgr_new = replicate max_file_transfers unused
