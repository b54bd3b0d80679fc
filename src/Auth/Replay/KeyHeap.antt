-- ===== src/Auth/Replay/KeyHeap.antt =====
-- The two heaps of replay.go: what the program uses of container/heap is the element at index 0.
-- Which of several least elements that is depends on the heap's array, so it is left open.
use ori_gateway.Base.{
  ℕ, ◌≤◌, String, ◌≡◌, ◌⊎◌, Option, some, List, [], ◌∷◌, map, All, nat_eq, string_eq,
}
use ori_gateway.Base.Maps.{Map}

pub record Held : Type 0 where
  pub key : String
  pub signed_at : ℕ
  pub received_at : ℕ
  pub drop_time : ℕ

abbrev pub values : Map String Held → List Held
values = map (λ entry. entry.1)

abbrev pub In : Held → List Held → Type 0
In a [] = ⊥
In a (x ∷ xs) = (a ≡ x) ⊎ In a xs

-- container/heap keeps a least element first, and a heap with elements has a first one.
pub record Heap : Type 0 where
  pub least : (Held → ℕ) → List Held → Option Held
  pub least_some :
      (f : Held → ℕ) (h : Held) (hs : List Held) → (x : Held) × (least f (h ∷ hs) ≡ some x)
  pub least_in : (f : Held → ℕ) (hs : List Held) (h : Held) → least f hs ≡ some h → In h hs
  pub least_le :
      (f : Held → ℕ) (hs : List Held) (h : Held) → least f hs ≡ some h → All (λ x. f h ≤ f x) hs
