-- ===== src/Community/Node/Outcomes.antt =====
-- Node: reasoning on statements that may throw.
use disquisition.Common.{◌≡◌, subst, text_eq, nat_eq}
use disquisition.Community.Node.{Node, Outcome, returns, throws, node_of, ◌▸◌}

-- What holds of the node after each statement holds at the end, whether an exception cut it short or not.
pub node_of-then {ℓ} :
    (P : Node → Type ℓ) (o : Outcome) (f : Node → Outcome)
    → P (node_of o)
    → ((n : Node) → P n → P (node_of (f n)))
    → P (node_of (o ▸ f))
unfolding node_of ◌▸◌
node_of-then P (returns n) f h k = k n h
node_of-then P (throws e n) f h k = h

-- What holds if no exception was thrown.
unfoldable pub Ends {ℓ} : (Node → Type ℓ) → Outcome → Type ℓ
Ends Q (returns n) = Q n
Ends Q (throws e n) = Unit

pub Ends-then {ℓ κ} :
    (P : Node → Type ℓ) (Q : Node → Type κ) (o : Outcome) (f : Node → Outcome)
    → P (node_of o)
    → ((n : Node) → P n → Ends Q (f n))
    → Ends Q (o ▸ f)
unfolding node_of Ends ◌▸◌
Ends-then P Q (returns n) f h k = k n h
Ends-then P Q (throws e n) f h k = tt

-- Of a statement that may throw, and what follows it if it does not.
pub then_cases {ℓ} :
    (P Q R : Node → Type ℓ) (o : Outcome) (f : Node → Outcome)
    → R (node_of o)
    → ((m : Node) → R m → P m)
    → Ends Q o
    → ((m : Node) → Q m → P (node_of (f m)))
    → P (node_of (o ▸ f))
unfolding node_of Ends ◌▸◌
then_cases P Q R (returns n) f r k e g = g n e
then_cases P Q R (throws x n) f r k e g = k n r

pub Ends-all {ℓ} : (Q : Node → Type ℓ) (o : Outcome) → Q (node_of o) → Ends Q o
unfolding node_of Ends
Ends-all Q (returns n) h = h
Ends-all Q (throws e n) h = tt

pub Ends-returns {ℓ} : (Q : Node → Type ℓ) (o : Outcome) (n : Node) → Ends Q o → o ≡ returns n → Q n
unfolding Ends
Ends-returns Q o n h e = subst (Ends Q) e h

-- One statement and the next, where each has to return.
pub Ends-next {ℓ κ} :
    (P : Node → Type ℓ) (Q : Node → Type κ) (o : Outcome) (f : Node → Outcome)
    → Ends P o
    → ((n : Node) → P n → Ends Q (f n))
    → Ends Q (o ▸ f)
unfolding Ends ◌▸◌
Ends-next P Q (returns n) f h k = k n h
Ends-next P Q (throws e n) f h k = tt
