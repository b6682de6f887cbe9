-- ===== src/Inode.antt =====
-- class Context::Inode of Context.hpp, its permissions, and Context::Inode::lookup of Context.cpp.
-- A name is the list of its characters.
pub mod Answer
pub mod Lookup
pub mod Plain
pub mod Results
pub mod Strip
use nfs_client_simulator.Common.{
  ℕ, zero, suc, ◌+◌, ◌-◌, ◌%◌, ◌^◌, List, [], ◌∷◌, ◌++◌, Bool, true, false, ◌&&◌, ◌||◌, Option,
  none, some, Outcome, ok, fault, ◌>>=◌, ◌==◌, not, if◌then◌else◌, bit_or, length, take, drop,
}
use nfs_client_simulator.GenericEnums.{
  AuthType, auth_type_u32, auth_sys, call, rpc_version2, program_version3, nfs, cred_request_size,
  mount_request_size,
}
use nfs_client_simulator.NfsEnums.{
  nfs_prog_u32, nfsproc3_lookup, nfs_prog_err_u32, nfs3_ok, perms_u32, xoth, woth, roth, xgrp, wgrp,
  rgrp, xusr, wusr, rusr,
}
use nfs_client_simulator.Utils.{get_monotonic}
use nfs_client_simulator.Xdr.{
  Buffer, Pointer, emit, xdr_encode_string, xdr_encode_align, xdr_encode_n_bytes, xdr_decode_u32,
  xdr_decode_n_bytes,
}
use nfs_client_simulator.Rpc.{put_u32, make_rpc}
use nfs_client_simulator.Context.Connection.{connect_nfs_port}
use nfs_client_simulator.Call.{World, Memory, new_array, build_request, exchange}

pub data InodeType : Type 0 where
  nfs3reg nfs3dir nfs3blk nfs3chr nfs3lnk nfs3sock nfs3fifo : InodeType

unfoldable pub inode_special : InodeType → Bool
inode_special nfs3blk = true
inode_special nfs3chr = true
inode_special nfs3sock = true
inode_special nfs3fifo = true
inode_special t = false

unfoldable pub inode_link : InodeType → Bool
inode_link nfs3lnk = true
inode_link t = false

abbrev is_dir : InodeType → Bool
is_dir nfs3dir = true
is_dir t = false

abbrev is_reg : InodeType → Bool
is_reg nfs3reg = true
is_reg t = false

-- Permissions::makeDefault: the bits XOTH to RUSR.
unfoldable pub make_default : ℕ
make_default =
    let mode : ℕ = perms_u32 xoth in
    let mode : ℕ = bit_or mode (perms_u32 woth) in
    let mode : ℕ = bit_or mode (perms_u32 roth) in
    let mode : ℕ = bit_or mode (perms_u32 xgrp) in
    let mode : ℕ = bit_or mode (perms_u32 wgrp) in
    let mode : ℕ = bit_or mode (perms_u32 rgrp) in
    let mode : ℕ = bit_or mode (perms_u32 xusr) in
    let mode : ℕ = bit_or mode (perms_u32 wusr) in bit_or mode (perms_u32 rusr)

-- `self` shadows the member in the branch for directories, so that there only `selfDir` is set.
-- The children are never entered anywhere, and left out.
pub record Inode : Type 0 where
  pub type : InodeType
  pub perms : ℕ
  pub parent_name : List ℕ
  pub self : List ℕ
  pub self_dir : Option (List ℕ)
  pub self_handle : Option (List ℕ)

-- `name.find(text) == 0` at the front.
abbrev pub starts_with : List ℕ → List ℕ → Bool
starts_with [] name = true
starts_with (c ∷ cs) [] = false
starts_with (c ∷ cs) (d ∷ ds) = (c == d) && starts_with cs ds

-- std::string::rfind: the last position where the text begins.
unfoldable pub rfind : List ℕ → List ℕ → Option ℕ
rfind text [] = if starts_with text [] then some 0 else none
rfind text (c ∷ cs) = elim (rfind text cs) [
  | some i ↦ some (suc i)
  | none ↦ if starts_with text (c ∷ cs) then some 0 else none
]

-- `name.replace(found, n, "")`
abbrev pub erase_at : ℕ → ℕ → List ℕ → List ℕ
erase_at found n name = take found name ++ drop (found + n) name

-- `while (found != npos) { erase; found = name.rfind(text); }`. Each round shortens the name, so that
-- its length is enough fuel.
unfoldable pub erase_all : ℕ → List ℕ → List ℕ → List ℕ
erase_all zero text name = name
erase_all (suc fuel) text name = elim (rfind text name) [
  | none ↦ name
  | some found ↦ erase_all fuel text (erase_at found (length text) name)
]

abbrev pub dot : ℕ
dot = b'.'

abbrev pub slash : ℕ
slash = b'/'

unfoldable pub strip_slash : List ℕ → List ℕ
strip_slash name = elim (rfind (dot ∷ dot ∷ []) name) [
  | some found ↦ []
  | none ↦
      let name₁ = erase_all (length name) (dot ∷ slash ∷ []) name in
      erase_all (length name₁) (slash ∷ []) name₁
]

-- The constructor.
unfoldable pub make_inode : List ℕ → List ℕ → InodeType → Inode
make_inode parent name type =
    let my_name = strip_slash name in
    record {
      type = type;
      perms = make_default;
      parent_name = parent;
      self =
          if not (is_dir type) && (is_reg type || inode_special type || inode_link type)
          then my_name
          else name;
      self_dir = if is_dir type then some (parent ++ slash ∷ my_name) else none;
      self_handle = none;
    }

-- The reply to LOOKUP. The handle of the child is decoded and printed.
unfoldable pub read_lookup_reply : Pointer → Outcome (Option (List ℕ))
read_lookup_reply payload = do
  (rpc_result, o₁) ← xdr_decode_u32 payload 0
  if rpc_result == nfs_prog_err_u32 nfs3_ok
      then (do (_, child_handle, o₂) ← xdr_decode_n_bytes payload [] 64 o₁; ok none)
      else ok none

-- `*(parent->selfHandle)`
unfoldable pub dereference : Option (List ℕ) → Outcome (List ℕ)
dereference none = fault
dereference (some handle) = ok handle

-- The arguments of LOOKUP: the handle of the directory and the name.
unfoldable pub put_dirop : Inode → List ℕ → ℕ × Buffer → Outcome (ℕ × Buffer)
put_dirop parent child s₃ = do
  parent_handle ← dereference parent.self_handle
  s₄ ← emit (λ p. xdr_encode_n_bytes p parent_handle) s₃
  s₅ ← emit (λ p. xdr_encode_string p child) s₄
  emit (λ p. xdr_encode_align p s₅.0 4) s₅

-- From the credential on. LOOKUP_RESPONSE_SIZE is 1024, and the result is `lHandle`.
unfoldable pub lookup_call :
    World → Memory → ℕ → List ℕ → Inode → ℕ × Buffer → Outcome (Option (List ℕ) × World)
lookup_call w memory xid child parent s₂ = do
  (request_size, wire_request, sequential') ←
      build_request w.sequential w.self_fqdn (new_array cred_request_size memory.credentials)
        (put_dirop parent child) s₂
  (payload, w') ←
      exchange (record w { sequential = sequential' }) memory 1024 request_size wire_request xid
  l_handle ← read_lookup_reply payload
  ok (l_handle, w')

-- lookup. NFSPROC3_LOOKUP is 3.
unfoldable pub lookup :
    World → Memory → List ℕ → Inode → AuthType → Outcome (Option (List ℕ) × World)
lookup w memory child parent auth = do
  (_, client₁) ← connect_nfs_port w.client
  let (value, sequential₁) = get_monotonic w.sequential
  let xid = value % 2 ^ 32
  let w₁ = record w { client = client₁; sequential = sequential₁ }
  s₁ ←
      make_rpc xid call rpc_version2 nfs program_version3
        (new_array mount_request_size memory.request)
  s₂ ← put_u32 (nfs_prog_u32 nfsproc3_lookup) s₁
  if auth_type_u32 auth == auth_type_u32 auth_sys
      then lookup_call w₁ memory xid child parent s₂
      else ok (none, w₁)
