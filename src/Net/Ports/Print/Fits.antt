-- ===== src/Net/Ports/Print/Fits.antt =====
-- The print of the registry stays in its buffer.
use knit_os.Base.{
  ℕ, ◌+◌, ◌<◌, List, [], ◌∷◌, Bool, true, false, ◌&&◌, Option, length, inl, inr, ltb→lt, ltb, ◌==◌,
  if◌then◌else◌, Bool-cases, arith, length-append,
}
use knit_os.Net.Tcp.{Connection}
use knit_os.Net.Ports.{NetPortSlot, Ports}
use knit_os.Net.Ports.Print.{
  np_fmt_putc, np_fmt_puts, np_fmt_u32, np_fmt_ip, np_fmt_remote, np_fmt_one, fmt_all,
  net_ports_format_table,
}

putc-fits :
    (size : ℕ) (out : List ℕ) (c : ℕ) → length out < size → length (np_fmt_putc size out c) < size
putc-fits size out c h = elim (Bool-cases (ltb (length out + 1) size)) [
  | inl e ↦ rw (e, length-append out (c ∷ [])) (omega (arith, ltb→lt (length out + 1) size e))
  | inr e ↦ rw e h
]

puts-fits :
    (size : ℕ) (out cs : List ℕ) → length out < size → length (np_fmt_puts size out cs) < size
unfolding np_fmt_puts
puts-fits size out [] h = h
puts-fits size out (c ∷ cs) h = puts-fits size (np_fmt_putc size out c) cs (putc-fits size out c h)

u32-fits :
    (size : ℕ) (out : List ℕ) (v : ℕ) → length out < size → length (np_fmt_u32 size out v) < size
unfolding np_fmt_u32
u32-fits size out v h = elim (Bool-cases (v == 0)) [
  | inl e ↦ rw (e, np_fmt_u32) (putc-fits size out b'0' h)
  | inr e ↦ rw (e, np_fmt_u32) (puts-fits size out _ h)
]

ip-fits :
    (size : ℕ) (out : List ℕ) (ip : ℕ) → length out < size → length (np_fmt_ip size out ip) < size
unfolding np_fmt_ip
ip-fits size out ip h = u32-fits size _ _ (
    putc-fits size _ _ (
      u32-fits size _ _
        (putc-fits size _ _ (u32-fits size _ _ (putc-fits size _ _ (u32-fits size out _ h))))))

remote-fits :
    (size : ℕ) (out : List ℕ) (info : NetPortSlot)
    → length out < size
    → length (np_fmt_remote size out info) < size
unfolding np_fmt_remote
remote-fits size out info h = elim (Bool-cases (info.remote_ip == 0 && info.remote_port == 0)) [
  | inl e ↦ rw (e, np_fmt_remote) (puts-fits size out _ h)
  | inr e ↦ rw (e, np_fmt_remote) (u32-fits size _ _ (putc-fits size _ _ (ip-fits size out _ h)))
]

one-fits :
    (size : ℕ) (out : List ℕ) (info : NetPortSlot)
    → length out < size
    → length (np_fmt_one size out info) < size
unfolding np_fmt_one
one-fits size out info h = putc-fits size _ _ (
    puts-fits size _ _ (
      puts-fits size _ _ (
        u32-fits size _ _ (
          puts-fits size _ _ (
            puts-fits size _ _ (
              puts-fits size _ _ (
                remote-fits size _ info (
                  puts-fits size _ _ (
                    u32-fits size _ _ (
                      putc-fits size _ _
                        (ip-fits size _ _ (putc-fits size _ _ (puts-fits size out _ h)))))))))))))

either-fits :
    (size : ℕ) (b : Bool) (x y : List ℕ)
    → length x < size
    → length y < size
    → length (if b then x else y) < size
either-fits size true x y h g = h
either-fits size false x y h g = g

all-fits :
    (size : ℕ) (out : List ℕ) (ss : List NetPortSlot)
    → length out < size
    → length (fmt_all size out ss) < size
unfolding fmt_all
all-fits size out [] h = h
all-fits size out (s ∷ ss) h =
    all-fits size (if s.used then np_fmt_one size out s else out) ss
      (either-fits size s.used _ _ (one-fits size out s h) h)

-- Whatever the registry and the connections hold, the print of the table with its NUL fits into a
-- buffer that is not empty.
pub net_ports_format_table-fits :
    (size our_ip : ℕ) (current : Option ℕ) (conns : List Connection) (r : Ports)
    → 0 < size
    → length (net_ports_format_table size our_ip current conns r).0 < size
unfolding net_ports_format_table
net_ports_format_table-fits size our_ip current conns r room = elim (Bool-cases (size == 0)) [
  | inl e ↦ rw (e, net_ports_format_table) room
  | inr e ↦ rw (e, net_ports_format_table) (all-fits size _ _ (puts-fits size [] _ room))
]
