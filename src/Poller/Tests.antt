-- ===== src/Poller/Tests.antt =====
-- A kernel as a function from descriptors, and the theorems about the poller on it.
use solar_net.Base.{
  update, update_self, update_other, ℕ, ◌≡◌, ◌≢◌, refl, Bool, true, false, Option, none, some,
}
use solar_net.Channel.{Mask, init}
use solar_net.Poller.{Grants, Poller, Epoll, Operation, add, modify, delete}

interest_of : Operation → Mask → Option Mask
interest_of add m = some m
interest_of modify m = some m
interest_of delete m = none

allowed : Operation → Option Mask → Bool
allowed add none = true
allowed add (some m) = false
allowed modify none = false
allowed modify (some m) = true
allowed delete none = false
allowed delete (some m) = true

ctl_table : (ℕ → Option Mask) → Operation → ℕ → Mask → Bool → Bool × (ℕ → Option Mask)
ctl_table k op fd m true = (true, update k fd (interest_of op m))
ctl_table k op fd m false = (false, k)

ctl_other :
    (k : ℕ → Option Mask) (op : Operation) (fd j : ℕ) (m : Mask) (b : Bool)
    → j ≢ fd
    → (ctl_table k op fd m b).1 j ≡ k j
unfolding ctl_table
ctl_other k op fd j m true h = update_other k fd j (interest_of op m) h
ctl_other k op fd j m false h = refl

abbrev pub table : Epoll
unfolding ctl_table allowed interest_of ctl_other
table = record {
  Kernel = ℕ → Option Mask;
  interest = λ k. k;
  ctl = λ k op fd m. ctl_table k op fd m (allowed op (k fd));
  add_lem = λ k fd m h ok. rw h (update_self k fd (some m));
  modify_lem = λ k fd m old h ok. rw h (update_self k fd (some m));
  delete_lem = λ k fd m old h. rw h (refl, update_self k fd none);
  other_lem = λ k op fd j m h. ctl_other k op fd j m (allowed op (k fd)) h;
}

pub table-Grants : (k : table.Kernel) (fd : ℕ) → Grants table k fd
unfolding table ctl_table allowed interest_of
table-Grants k fd = ((λ m h. rw h refl), (λ m old h. rw h refl))

abbrev pub no_interest : table.Kernel
unfolding table
no_interest = λ fd. none

pub no_interest_lem : (fd : ℕ) → table.interest no_interest fd ≡ none
unfolding table no_interest
no_interest_lem fd = refl

-- No channel is entered yet; each channel `id` is on the descriptor of that number.
abbrev fresh_poller : Poller table
unfolding table
fresh_poller = record { channels = λ fd. none; heap = init; kernel = λ fd. none; errors = 0 }
