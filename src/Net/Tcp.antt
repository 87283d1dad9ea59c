-- ===== src/Net/Tcp.antt =====
-- kernel/drivers/network/protocols/tcp.h and tcp_connection.h: the types that the two files share.
-- A buffer and its length are the list of the bytes in use. A number of 16 or 32 bits wraps where
-- the source computes with it.
pub mod Slots
pub mod Format
pub mod Input
pub mod Output
pub mod Wire
pub mod Tests
use knit_os.Base.{ℕ, ◌+◌, ◌-◌, ◌*◌, ◌/◌, ◌%◌, ◌^◌, Bool, List, ◌==◌}

pub data State : Type 0 where
  closed : State
  listen : State
  syn_sent : State
  syn_received : State
  established : State
  fin_wait_1 : State
  fin_wait_2 : State
  close_wait : State
  closing : State
  time_wait : State
  last_ack : State

pub record Segment : Type 0 where
  pub seq : ℕ
  pub len : ℕ
  pub timeout : ℕ
  pub rto : ℕ
  pub retries : ℕ
  pub bytes : List ℕ

pub record Connection : Type 0 where
  pub src_ip : ℕ
  pub src_port : ℕ
  pub dest_ip : ℕ
  pub dest_port : ℕ
  pub state : State
  pub send_seq : ℕ
  pub send_una : ℕ
  pub recv_seq : ℕ
  pub send_window : ℕ
  pub recv_window : ℕ
  pub mss : ℕ
  pub rx : List ℕ
  pub tx : List ℕ
  pub queue : List Segment
  pub cwnd : ℕ
  pub ssthresh : ℕ
  pub in_slow_start : Bool
  pub last_activity : ℕ
  pub pending_accept : Bool
  pub valid : Bool

-- What `tcp_send` is given.
pub record Packet : Type 0 where
  pub dest_ip : ℕ
  pub src_port : ℕ
  pub dest_port : ℕ
  pub seq : ℕ
  pub ack : ℕ
  pub flags : ℕ
  pub window : ℕ
  pub payload : List ℕ

abbrev pub rx_size : ℕ
rx_size = 4096

abbrev pub tx_size : ℕ
tx_size = 4096

abbrev pub max_retransmit : ℕ
max_retransmit = 5

abbrev pub rto_initial : ℕ
rto_initial = 1000

abbrev pub rto_max : ℕ
rto_max = 60000

abbrev pub max_payload : ℕ
max_payload = 1460

abbrev pub max_connections : ℕ
max_connections = 64

abbrev pub flag_fin : ℕ
flag_fin = 1

abbrev pub flag_syn : ℕ
flag_syn = 2

abbrev pub flag_rst : ℕ
flag_rst = 4

abbrev pub flag_psh : ℕ
flag_psh = 8

abbrev pub flag_ack : ℕ
flag_ack = 16

-- `flags & flag`, for a flag of one bit.
abbrev pub has : ℕ → ℕ → Bool
has flags flag = flags / flag % 2 == 1

-- Addition and subtraction of `uint32_t`.
abbrev pub add32 : ℕ → ℕ → ℕ
add32 a b = (a + b) % 2 ^ 32

abbrev pub sub32 : ℕ → ℕ → ℕ
sub32 a b = (a + 2 ^ 32 - b) % 2 ^ 32
