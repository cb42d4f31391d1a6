-- ===== src/Tests.antt =====
-- Runs at the inputs of the repository's unit tests, and the theorems at concrete inputs.
mod NetTests
mod NodeTests
mod SocksTests
mod ConfigTests
mod CliTests
mod RunTests
mod NatTests
mod RuntimeTests
mod UdpTests
mod RelayTests
mod SystemTests
mod AppTests
