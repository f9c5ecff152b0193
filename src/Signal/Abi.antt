-- ===== src/Signal/Abi.antt =====
-- aether-kernel/src/signal/abi.rs: the numbers, records and encodings of the signal interface.
-- An i32 that holds flags (`ss_flags`, `_pad`) is its bit pattern, a number below 2 ^ 32; one that
-- holds a value (`code`, `status`, `pid`) is an integer.
use aether_kernel.Prelude.{
  ℕ, ◌+◌, ◌-◌, ◌^◌, ◌||◌, List, ◌++◌, Option, some, none, ltb, leb, ◌==◌, if◌then◌else◌, length,
  take, drop,
}
use aether_kernel.Prelude.Bytes.{to_ne_bytes, from_ne_bytes}

abbrev pub signal_max : ℕ
signal_max = 64

abbrev pub sigkill : ℕ
sigkill = 9

abbrev pub sigchld : ℕ
sigchld = 17

abbrev pub sigcont : ℕ
sigcont = 18

abbrev pub sigstop : ℕ
sigstop = 19

abbrev pub sigtstp : ℕ
sigtstp = 20

abbrev pub sigttin : ℕ
sigttin = 21

abbrev pub sigttou : ℕ
sigttou = 22

abbrev pub sigurg : ℕ
sigurg = 23

abbrev pub sigwinch : ℕ
sigwinch = 28

abbrev pub sig_block : ℕ
sig_block = 0

abbrev pub sig_unblock : ℕ
sig_unblock = 1

abbrev pub sig_setmask : ℕ
sig_setmask = 2

abbrev pub sig_dfl : ℕ
sig_dfl = 0

abbrev pub sig_ign : ℕ
sig_ign = 1

abbrev pub cld_exited : ℕ
cld_exited = 1

abbrev pub cld_killed : ℕ
cld_killed = 2

abbrev pub cld_stopped : ℕ
cld_stopped = 5

abbrev pub cld_continued : ℕ
cld_continued = 6

-- `negsuc n` is -(n + 1).
pub data ℤ : Type 0 where
  pos : ℕ → ℤ
  negsuc : ℕ → ℤ

-- `pid as i32`
abbrev pub to_i32 : ℕ → ℤ
to_i32 n = if ltb n (2 ^ 31) then pos n else negsuc (2 ^ 32 - 1 - n)

abbrev pub SigSet : Type 0
SigSet = ℕ

pub record SignalInfo : Type 0 where
  pub signal : ℕ
  pub code : ℤ
  pub status : ℤ
  pub pid : ℤ
  pub uid : ℕ

-- The code and the status of a child that has exited.
abbrev exit_status : ℤ → ℤ × ℤ
exit_status (pos n) = if leb 128 n then (pos cld_killed, pos (n - 128)) else (pos cld_exited, pos n)
exit_status (negsuc n) = (pos cld_exited, negsuc n)

unfoldable pub child_exit : ℕ → ℤ → SignalInfo
child_exit pid status =
    let (code, status') = exit_status status in
    record { signal = sigchld; code = code; status = status'; pid = to_i32 pid; uid = 0 }

unfoldable pub child_stop : ℕ → ℕ → SignalInfo
child_stop pid signal = record {
  signal = sigchld;
  code = pos cld_stopped;
  status = pos signal;
  pid = to_i32 pid;
  uid = 0;
}

unfoldable pub child_continue : ℕ → SignalInfo
child_continue pid = record {
  signal = sigchld;
  code = pos cld_continued;
  status = pos 0;
  pid = to_i32 pid;
  uid = 0;
}

unfoldable pub kernel : ℕ → ℤ → SignalInfo
kernel signal code = record { signal = signal; code = code; status = pos 0; pid = pos 0; uid = 0 }

pub record SignalAction : Type 0 where
  pub handler : ℕ
  pub flags : ℕ
  pub restorer : ℕ
  pub mask : SigSet

unfoldable pub default_for : ℕ → SignalAction
default_for signal = record { handler = sig_dfl; flags = 0; restorer = 0; mask = 0 }

unfoldable pub sigbit : ℕ → SigSet
sigbit signal = if signal == 0 || ltb signal_max signal then 0 else 2 ^ (signal - 1)

pub record SignalStack : Type 0 where
  pub ss_sp : ℕ
  pub ss_flags : ℕ
  pub pad : ℕ
  pub ss_size : ℕ

-- `bytes.get(offset..offset + n)`
unfoldable pub read_int : ℕ → List ℕ → ℕ → Option ℕ
read_int n bytes offset =
    if ltb (length bytes) (offset + n)
    then none
    else some (from_ne_bytes (take n (drop offset bytes)))

abbrev pub read_u64 : List ℕ → ℕ → Option ℕ
read_u64 = read_int 8

abbrev pub read_i32 : List ℕ → ℕ → Option ℕ
read_i32 = read_int 4

-- The `?` after each field.
infixl 5 ◌>>=◌
abbrev pub ◌>>=◌ {ℓ κ} : {A : Type ℓ} {B : Type κ} → Option A → (A → Option B) → Option B
none >>= f = none
some a >>= f = f a

unfoldable pub parse_sigaction : List ℕ → Option SignalAction
parse_sigaction bytes = if ltb (length bytes) 32 then none else (do
  handler ← read_u64 bytes 0
  flags ← read_u64 bytes 8
  restorer ← read_u64 bytes 16
  mask ← read_u64 bytes 24
  some (record { handler = handler; flags = flags; restorer = restorer; mask = mask }))

unfoldable pub serialize_sigaction : SignalAction → List ℕ
serialize_sigaction a =
    to_ne_bytes 8 a.handler
    ++ (to_ne_bytes 8 a.flags ++ (to_ne_bytes 8 a.restorer ++ to_ne_bytes 8 a.mask))

unfoldable pub parse_signal_stack : List ℕ → Option SignalStack
parse_signal_stack bytes = if ltb (length bytes) 24 then none else (do
  ss_sp ← read_u64 bytes 0
  ss_flags ← read_i32 bytes 8
  pad ← read_i32 bytes 12
  ss_size ← read_u64 bytes 16
  some (record { ss_sp = ss_sp; ss_flags = ss_flags; pad = pad; ss_size = ss_size }))

unfoldable pub serialize_signal_stack : SignalStack → List ℕ
serialize_signal_stack s =
    to_ne_bytes 8 s.ss_sp
    ++ (to_ne_bytes 4 s.ss_flags ++ (to_ne_bytes 4 s.pad ++ to_ne_bytes 8 s.ss_size))
