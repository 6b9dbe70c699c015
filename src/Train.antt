-- ===== src/Train.antt =====
-- libnet/msw/proto/train: blocks in wagons, and wagons cut into numbered packets of one size.
pub mod Wrapper
pub mod Unwrapper
pub mod Transfer
mod Tests
use rubetek_ios_cpp_releases.Prelude.{ℕ, ◌+◌, ◌-◌, ◌%◌, ◌/◌, List, length, if◌then◌else◌, ◌==◌}

-- headers.hpp
abbrev pub min_packet_size : ℕ
min_packet_size = 64

abbrev pub max_packet_size : ℕ
max_packet_size = 65536

abbrev pub wagon_max_size : ℕ
wagon_max_size = 0xffff

-- sizeof(packet_header) and sizeof(wagon_header)
abbrev pub packet_header_size : ℕ
packet_header_size = 4

abbrev pub wagon_header_size : ℕ
wagon_header_size = 12

-- What a wagon carries.
pub record Block : Type 0 where
  pub bytes : List ℕ
  pub pid : ℕ
  pub lid : ℕ
  pub ext : ℕ
