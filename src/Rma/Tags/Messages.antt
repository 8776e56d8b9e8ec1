-- ===== src/Rma/Tags/Messages.antt =====
-- The tags under which the accesses of two windows are sent.
use parcoach.Base.{ℕ, ◌+◌, ◌≤◌, ◌<◌, ◌≡◌, ◌≢◌, some, ap, sym, ◌∙◌}
use parcoach.Rma.Interval.{Access}
use parcoach.Rma.Outcome.{ok}
use parcoach.Rma.Windows.{WinState, States, Message, find, update_on_comm_send}
use parcoach.Rma.Windows.Sends.{update_on_comm_send-IsSent}
use parcoach.Rma.Tags.{mpi_tag_of, max_epoch_number}
use parcoach.Rma.Tags.Ranges.{mpi_tag_of-disjoint}

-- The window has the tag of the range, and is in one of the epochs for which the range has tags.
pub record HasTag (i : ℕ) (s : WinState) : Type 0 where
  pub tag : s.mpi_tag ≡ mpi_tag_of (some i)
  pub begun : 0 < s.count_epoch
  pub left : s.count_epoch ≤ max_epoch_number

-- Accesses that are sent for two windows with different ranges of tags, each in any of its epochs from
-- the first to the 1024th, go under different tags.
pub update_on_comm_send-apart :
    (local target local' target' : Access) (rank rank' win win' i j : ℕ)
    (states after states' after' : States) (msg msg' : Message) (s s' : WinState)
    → find win states ≡ some s
    → find win' states' ≡ some s'
    → HasTag i s
    → HasTag j s'
    → i ≢ j
    → update_on_comm_send local target rank win states ≡ ok (after, msg)
    → update_on_comm_send local' target' rank' win' states' ≡ ok (after', msg')
    → msg.tag ≢ msg'.tag
update_on_comm_send-apart local target local' target' rank rank' win win' i j states after states'
      after' msg msg' s s' there there' h h' ne sent sent' same =
    let one = update_on_comm_send-IsSent local target rank win states after msg s there sent in
    let two =
      update_on_comm_send-IsSent local' target' rank' win' states' after' msg' s' there' sent' in
    mpi_tag_of-disjoint i j s.count_epoch s'.count_epoch ne h.begun h.left h'.begun h'.left (
      ap (λ n. n + s.count_epoch) (sym h.tag)
      ∙ sym (ap (λ (m : Message). m.tag) one.message)
      ∙ same
      ∙ ap (λ (m : Message). m.tag) two.message
      ∙ ap (λ n. n + s'.count_epoch) h'.tag)
