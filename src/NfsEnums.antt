-- ===== src/NfsEnums.antt =====
-- The enumerations of Context.hpp that stand in messages of NFS and in permissions. A function `…_u32` is
-- the cast `static_cast<uint32_t>`.
use nfs_client_simulator.Common.{ℕ, ◌^◌}

-- NFSPROG: the procedures.
pub data NfsProg : Type 0 where
  nfsproc3_null nfsproc3_getattr nfsproc3_setattr nfsproc3_lookup : NfsProg
  nfsproc3_access nfsproc3_readlink nfsproc3_read nfsproc3_write : NfsProg
  nfsproc3_create nfsproc3_mkdir nfsproc3_symlink nfsproc3_mknod : NfsProg
  nfsproc3_remove nfsproc3_rmdir nfsproc3_rename nfsproc3_link : NfsProg
  nfsproc3_readdir nfsproc3_readdirplus nfsproc3_fsstat nfsproc3_fsinfo : NfsProg
  nfsproc3_pathconf nfsproc3_commit : NfsProg

abbrev pub nfs_prog_u32 : NfsProg → ℕ
nfs_prog_u32 nfsproc3_null = 0
nfs_prog_u32 nfsproc3_getattr = 1
nfs_prog_u32 nfsproc3_setattr = 2
nfs_prog_u32 nfsproc3_lookup = 3
nfs_prog_u32 nfsproc3_access = 4
nfs_prog_u32 nfsproc3_readlink = 5
nfs_prog_u32 nfsproc3_read = 6
nfs_prog_u32 nfsproc3_write = 7
nfs_prog_u32 nfsproc3_create = 8
nfs_prog_u32 nfsproc3_mkdir = 9
nfs_prog_u32 nfsproc3_symlink = 10
nfs_prog_u32 nfsproc3_mknod = 11
nfs_prog_u32 nfsproc3_remove = 12
nfs_prog_u32 nfsproc3_rmdir = 13
nfs_prog_u32 nfsproc3_rename = 14
nfs_prog_u32 nfsproc3_link = 15
nfs_prog_u32 nfsproc3_readdir = 16
nfs_prog_u32 nfsproc3_readdirplus = 17
nfs_prog_u32 nfsproc3_fsstat = 18
nfs_prog_u32 nfsproc3_fsinfo = 19
nfs_prog_u32 nfsproc3_pathconf = 20
nfs_prog_u32 nfsproc3_commit = 21

-- NFSPROGERR: the results of a procedure.
pub data NfsProgErr : Type 0 where
  nfs3_ok nfs3err_perm nfs3err_noent nfs3err_io nfs3err_nxio nfs3err_acces : NfsProgErr
  nfs3err_exist nfs3err_xdev nfs3err_nodev nfs3err_notdir nfs3err_isdir : NfsProgErr
  nfs3err_inval nfs3err_fbig nfs3err_nospc nfs3err_rofs nfs3err_mlink : NfsProgErr
  nfs3err_nametoolong nfs3err_notempty nfs3err_dquot nfs3err_stale : NfsProgErr
  nfs3err_remote nfs3err_badhandle nfs3err_not_sync nfs3err_bad_cookie : NfsProgErr
  nfs3err_notsupp nfs3err_toosmall nfs3err_serverfault nfs3err_badtype : NfsProgErr
  nfs3err_jukebox : NfsProgErr

abbrev pub nfs_prog_err_u32 : NfsProgErr → ℕ
nfs_prog_err_u32 nfs3_ok = 0
nfs_prog_err_u32 nfs3err_perm = 1
nfs_prog_err_u32 nfs3err_noent = 2
nfs_prog_err_u32 nfs3err_io = 5
nfs_prog_err_u32 nfs3err_nxio = 6
nfs_prog_err_u32 nfs3err_acces = 13
nfs_prog_err_u32 nfs3err_exist = 17
nfs_prog_err_u32 nfs3err_xdev = 18
nfs_prog_err_u32 nfs3err_nodev = 19
nfs_prog_err_u32 nfs3err_notdir = 20
nfs_prog_err_u32 nfs3err_isdir = 21
nfs_prog_err_u32 nfs3err_inval = 22
nfs_prog_err_u32 nfs3err_fbig = 27
nfs_prog_err_u32 nfs3err_nospc = 28
nfs_prog_err_u32 nfs3err_rofs = 30
nfs_prog_err_u32 nfs3err_mlink = 31
nfs_prog_err_u32 nfs3err_nametoolong = 63
nfs_prog_err_u32 nfs3err_notempty = 66
nfs_prog_err_u32 nfs3err_dquot = 69
nfs_prog_err_u32 nfs3err_stale = 70
nfs_prog_err_u32 nfs3err_remote = 71
nfs_prog_err_u32 nfs3err_badhandle = 10001
nfs_prog_err_u32 nfs3err_not_sync = 10002
nfs_prog_err_u32 nfs3err_bad_cookie = 10003
nfs_prog_err_u32 nfs3err_notsupp = 10004
nfs_prog_err_u32 nfs3err_toosmall = 10005
nfs_prog_err_u32 nfs3err_serverfault = 10006
nfs_prog_err_u32 nfs3err_badtype = 10007
nfs_prog_err_u32 nfs3err_jukebox = 10008

-- Permissions::PERMS
pub data Perms : Type 0 where
  xoth woth roth xgrp wgrp rgrp xusr wusr rusr stxt sgrp susr : Perms

abbrev pub perms_u32 : Perms → ℕ
perms_u32 xoth = 2 ^ 0
perms_u32 woth = 2 ^ 1
perms_u32 roth = 2 ^ 2
perms_u32 xgrp = 2 ^ 3
perms_u32 wgrp = 2 ^ 4
perms_u32 rgrp = 2 ^ 5
perms_u32 xusr = 2 ^ 6
perms_u32 wusr = 2 ^ 7
perms_u32 rusr = 2 ^ 8
perms_u32 stxt = 2 ^ 9
perms_u32 sgrp = 2 ^ 10
perms_u32 susr = 2 ^ 11
