-- ===== src/ByteQueue/Defs.antt =====
-- lib/byte_queue.c and lib/byte_queue.h: the circular buffer of bytes that holds waiting senders,
-- waiting tasks and console input. `try_uart_out` is declared there and defined nowhere.
use choochoo_os.Base.{
  ℕ, ◌+◌, ◌-◌, ◌%◌, Bool, true, false, Option, none, some, ◌==◌, if◌then◌else◌, update,
}
use choochoo_os.Base.Int.{ℤ, pos, negsuc, ◌+ℤ◌, ltb_ℤ, eqb_ℤ}

abbrev pub max_queue_length : ℕ
max_queue_length = 1024

-- `que` is the array of MAX_QUEUE_LENGTH bytes. The two indices are never negative; `len` is an
-- `int` that `pop` counts down without a test.
pub record BQueue : Type 0 where
  pub que : ℕ → ℕ
  pub front_ptr : ℕ
  pub back_ptr : ℕ
  pub len : ℤ
  pub is_full : Bool

unfoldable pub new_byte_queue : BQueue
new_byte_queue = record { que = λ _. 0; front_ptr = 0; back_ptr = 0; len = pos 0; is_full = false }

unfoldable pub front : BQueue → ℕ
front q = q.que q.front_ptr

-- `(back_ptr - 1) % MAX_QUEUE_LENGTH` is -1 at `back_ptr == 0`: `none` is the read before the array.
unfoldable pub back : BQueue → Option ℕ
back q = if q.back_ptr == 0 then none else some (q.que ((q.back_ptr - 1) % max_queue_length))

-- The flag is the returned `bool`.
unfoldable pub push : BQueue → ℕ → BQueue × Bool
push q byte =
    if ltb_ℤ q.len (pos max_queue_length)
    then (
      record q {
        que = update q.que q.back_ptr byte;
        back_ptr = (q.back_ptr + 1) % max_queue_length;
        len = q.len +ℤ pos 1;
      },
      true,
    )
    else (record q { is_full = true }, false)

unfoldable pub pop : BQueue → ℕ × BQueue
pop q = (
  q.que q.front_ptr,
  record q {
    front_ptr = (q.front_ptr + 1) % max_queue_length;
    len = q.len +ℤ negsuc 0;
    is_full = false;
  },
)

unfoldable pub length : BQueue → ℤ
length q = q.len

unfoldable pub is_full : BQueue → Bool
unfolding length
is_full q = eqb_ℤ (length q) (pos max_queue_length)

unfoldable pub is_empty : BQueue → Bool
unfolding length
is_empty q = eqb_ℤ (length q) (pos 0)
