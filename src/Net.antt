-- ===== src/Net.antt =====
-- pkg/snet/stcp and internal/netutil: ports and keys of direct connections, and retries.
pub mod Porter
pub mod PkTable
pub mod Retrier
pub mod HttpAuth
mod Tests
