-- ===== src/Chat.antt =====
-- A chat over System V message queues: cw06/zad1. The messages of consts.h and the kernel.
pub mod Server
pub mod Client
use agh_sys_opy.Prelude.{ℕ, Bool, List, Option}
use agh_sys_opy.Prelude.Int.{ℤ}

abbrev pub msg_size : ℕ
msg_size = 1024

pub data Kind : Type 0 where
  stop list toall toone init : Kind
  other : ℕ → Kind

-- `struct Message` without the time of sending. A field that the sender leaves uninitialised is
-- `none`. The content is the string up to its NUL.
pub record Message : Type 0 where
  pub type : Kind
  pub sender_id : Option ℤ
  pub receiver_id : Option ℤ
  pub content : Option (List ℕ)

pub data Call : Type 0 where
  msgget : ℤ → Call
  msgsnd : ℤ → Message → Call
  msgctl : Call

-- What the kernel answers to a call, after the calls made so far, the latest first: the queue for a
-- key (-1 on failure), whether a queue takes a message, whether the server's queue is removed.
pub record Kernel : Type 0 where
  pub queue_of : List Call → ℤ → ℤ
  pub takes : List Call → ℤ → Bool
  pub removes : List Call → Bool
