-- ===== src/Signal/Core.antt =====
-- aether-kernel/src/signal/core.rs: default actions, blocking and the choice of a delivery.
use Prim.Native.Nat.{bit_and, bit_or}
use aether_kernel.Prelude.{ℕ, Bool, ◌&&◌, ◌||◌, not, ◌==◌, if◌then◌else◌}
use aether_kernel.Prelude.Bits.{bit_not64}
use aether_kernel.Signal.Abi.{
  SigSet, SignalInfo, SignalAction, sigbit, sigkill, sigchld, sigcont, sigstop, sigtstp, sigttin,
  sigttou, sigurg, sigwinch, sig_ign, sig_dfl,
}

pub data SignalDefault : Type 0 where
  ignore terminate stop continue : SignalDefault

pub data SignalDelivery : Type 0 where
  none : SignalDelivery
  ignored : SignalInfo → SignalDelivery
  deliver : SignalInfo → SignalAction → SignalDelivery
  exit : SignalInfo → SignalDelivery
  stop : SignalInfo → SignalDelivery
  continue : SignalInfo → SignalDelivery

-- The last two arms of the `match` agree.
unfoldable pub default_action : ℕ → SignalDefault
default_action signal =
    if signal == sigchld || signal == sigurg || signal == sigwinch
    then SignalDefault.ignore
    else if signal == sigstop || signal == sigtstp || signal == sigttin || signal == sigttou
    then SignalDefault.stop
    else if signal == sigcont
    then SignalDefault.continue
    else SignalDefault.terminate

unfoldable pub sanitize_mask : SigSet → SigSet
sanitize_mask mask = bit_and mask (bit_not64 (bit_or (sigbit sigkill) (sigbit sigstop)))

unfoldable pub is_blocked : SigSet → ℕ → Bool
is_blocked mask signal =
    not (bit_and mask (sigbit signal) == 0) && not (signal == sigkill) && not (signal == sigstop)

-- The last `match` of `delivery_for`.
unfoldable pub by_default : SignalDefault → SignalInfo → SignalDelivery
by_default SignalDefault.ignore info = SignalDelivery.ignored info
by_default SignalDefault.terminate info = SignalDelivery.exit info
by_default SignalDefault.stop info = SignalDelivery.stop info
by_default SignalDefault.continue info = SignalDelivery.continue info

unfoldable pub delivery_for : SigSet → SignalAction → SignalInfo → Bool → SignalDelivery
unfolding by_default
delivery_for blocked action info handlers_supported =
    if is_blocked blocked info.signal
    then SignalDelivery.none
    else if action.handler == sig_ign
    then SignalDelivery.ignored info
    else if not (action.handler == sig_dfl)
    then (if handlers_supported
        then SignalDelivery.deliver info action
        else SignalDelivery.exit info)
    else by_default (default_action info.signal) info
