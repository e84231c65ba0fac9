-- ===== src/Lab2/PacketType.antt =====
-- The packet types of lab2/internal/domain/packet.go. `data_packet` is `PacketTypeData`.
use nssa_ds.Base.{ℕ}

abbrev pub data_packet : ℕ
data_packet = 1

abbrev pub ack : ℕ
ack = 2

abbrev pub nack : ℕ
nack = 3

abbrev pub syn : ℕ
syn = 4

abbrev pub fin : ℕ
fin = 5

abbrev pub file_info : ℕ
file_info = 6

abbrev pub command : ℕ
command = 7

abbrev pub response : ℕ
response = 8
