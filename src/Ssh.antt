-- ===== src/Ssh.antt =====
-- quansec/protocols/ssh: the key-exchange policy of the SSH daemon, and the certificate authority.
pub mod Policies
pub mod Ca
mod Tests
