-- ===== src/Http/Connect.antt =====
-- `connect_with_timeout` of src/vehicle_detection/src/http_client.cpp. What the system calls answer is
-- an argument, and the descriptors that the call opens and closes are part of its result.
use vehicle_detection_system.Common.{
  ◌⊎◌, inl, inr, ℕ, ◌*◌, ◌/◌, ◌%◌, Option, none, some, List, [], ◌∷◌, ◌++◌, Bytes, codes,
}

-- `none` is success, `some` the text of `strerror(errno)`.
abbrev pub Answer : Type 0
Answer = Option Bytes

pub data SelectAnswer : Type 0 where
  ready timed_out : SelectAnswer
  select_failed : Bytes → SelectAnswer

-- The answers of the system calls for one address, in the order of the calls. `connect` is without
-- error also where it says EINPROGRESS. `so_error` is the text for the error that `getsockopt` finds.
pub record AddressScript : Type 0 where
  pub socket : ℕ ⊎ Bytes
  pub fcntl_get : Answer
  pub fcntl_set : Answer
  pub connect : Answer
  pub select : SelectAnswer
  pub so_error : Answer
  pub fcntl_restore : Answer

pub data FdEvent : Type 0 where
  opened : ℕ → FdEvent
  closed : ℕ → FdEvent

-- A `struct timeval` of a duration in milliseconds.
pub record TimeVal : Type 0 where
  pub sec : ℕ
  pub usec : ℕ

unfoldable pub to_timeval : ℕ → TimeVal
to_timeval timeout = record { sec = timeout / 1000; usec = timeout % 1000 * 1000 }

pub record Connection : Type 0 where
  -- The descriptor, or the text put into `*error`.
  pub outcome : ℕ ⊎ Bytes
  pub events : List FdEvent

-- The descriptor is closed and -1 returned.
abbrev give_up : ℕ → Bytes → Connection
give_up sock message = record { outcome = inr message; events = opened sock ∷ closed sock ∷ [] }

unfoldable pub after_socket : AddressScript → ℕ → Connection
after_socket a sock = elim a.fcntl_get [
  | some e ↦ give_up sock (codes "fcntl(O_NONBLOCK): " ++ e)
  | none ↦ elim a.fcntl_set [
    | some e ↦ give_up sock (codes "fcntl(O_NONBLOCK): " ++ e)
    | none ↦ elim a.connect [
      | some e ↦ give_up sock (codes "connect(): " ++ e)
      | none ↦ elim a.select [
        | timed_out ↦ give_up sock (codes "connect timed out")
        | select_failed e ↦ give_up sock (codes "select(): " ++ e)
        | ready ↦ elim a.so_error [
          | some e ↦ give_up sock (codes "connect(): " ++ e)
          | none ↦ elim a.fcntl_restore [
            | some e ↦ give_up sock (codes "fcntl(restore): " ++ e)
            | none ↦ record { outcome = inl sock; events = opened sock ∷ [] }
          ]
        ]
      ]
    ]
  ]
]

unfoldable pub connect_with_timeout : AddressScript → Connection
unfolding after_socket
connect_with_timeout a = elim a.socket [
  | inr e ↦ record { outcome = inr (codes "socket(): " ++ e); events = [] }
  | inl sock ↦ after_socket a sock
]
