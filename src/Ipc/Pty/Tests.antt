-- ===== src/Ipc/Pty/Tests.antt =====
-- kernel/pty.cpp on concrete ptys.
use knit_os.Base.{ℕ, ◌≡◌, ◌≢◌, refl, true, false, List, [], ◌∷◌, replicate, length-replicate, arith}
use knit_os.Ipc.Ring.{Ring, ring_size}
use knit_os.Ipc.Ring.Contents.{contents, reading}
use knit_os.Ipc.Pty.{Pty, master_write}
use knit_os.Ipc.Pty.Terminal.{IsPty, view, clip, typed_all}
use knit_os.Ipc.Pty.Discipline.{master_write-cooked}

abbrev ring : Ring
ring = record { buf = replicate ring_size 0; head = 0; tail = 0; count = 0 }

abbrev full_of : ℕ → Ring
full_of n = record { buf = replicate ring_size 0; head = n; tail = 0; count = n }

-- A pty with three bytes for the slave, two for the master, and an end of file that waits.
abbrev busy : Pty
busy = record {
  used = true;
  input = full_of 3;
  output = full_of 2;
  line = replicate ring_size 0;
  line_len = 0;
  master_refs = 1;
  slave_refs = 1;
  sigint = false;
  eof = true;
  raw = false;
}

busy-IsPty : IsPty busy
busy-IsPty = record {
  input_ok = record {
    room = length-replicate {A = ℕ} ring_size 0;
    tail_in = omega arith;
    count_in = omega arith;
    head_at = refl;
  };
  output_ok = record {
    room = length-replicate {A = ℕ} ring_size 0;
    tail_in = omega arith;
    count_in = omega arith;
    head_at = refl;
  };
  line_room = length-replicate {A = ℕ} ring_size 0;
  line_in = omega arith;
}

abbrev bare : Pty
bare = record busy { input = ring; raw = true }

bare-IsPty : IsPty bare
bare-IsPty = record {
  input_ok = record {
    room = length-replicate {A = ℕ} ring_size 0;
    tail_in = omega arith;
    count_in = omega arith;
    head_at = refl;
  };
  output_ok = busy-IsPty.output_ok;
  line_room = busy-IsPty.line_room;
  line_in = busy-IsPty.line_in;
}

-- `a`, backspace, `b`, return.
abbrev keys : List ℕ
keys = 97 ∷ 8 ∷ 98 ∷ 13 ∷ []

master_write-cooked_example :
    IsPty (master_write busy keys)
    × (view (master_write busy keys) ≡ clip (typed_all (view busy) keys))
master_write-cooked_example = master_write-cooked busy keys busy-IsPty refl

input_waits : contents busy.input ≢ []
unfolding reading
input_waits e = absurd (cc)
