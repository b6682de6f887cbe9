-- ===== src/Server/Lookups.antt =====
-- lookup against an NFS server, and what the server reads of the request.
use nfs_client_simulator.Call.Answer.{Answer}
use nfs_client_simulator.Inode.{Inode}
