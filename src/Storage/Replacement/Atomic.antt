-- ===== src/Storage/Replacement/Atomic.antt =====
-- The abstract view of a replacement of src/core/secure_storage.cpp: an atomic write of one name.
use fedora_firewall_control.Common.{
  subst, ◌≡◌, refl, sym, inl, inr, true, false, Option, none, some, List, [], ◌∷◌, ◌++◌, arith,
  if◌then◌else◌, Bool-cases, All, Option-cases, All-append,
}
use mathlib.Core.List.{append-nil, append_assoc}
use fedora_firewall_control.Dict.{lookup, assign}
use fedora_firewall_control.Storage.{created, Node}
use fedora_firewall_control.Storage.Replacement.{
  Directory, erase, give_up, publish, ReplaceSystem, Replaced,
}
use fedora_firewall_control.Text.{Text, text_eq}
use fedora_firewall_control.Text.Laws.{text_eq_iff, text_eq_refl}
use fedora_firewall_control.Dict.Laws.{lookup-assign}

-- The name has the same file in all of these states.
abbrev pub Stays : Text → Option Node → List Directory → Type 0
Stays filename file ds = All (λ d. lookup filename d ≡ file) ds

abbrev pub last_state : Directory → List Directory → Directory
last_state d [] = d
last_state d (e ∷ es) = last_state e es

abbrev pub new_file : Text → Node
new_file content = record created { text = content }

-- A run is an atomic write of the name: states before it, states after it, and no other file
-- changes, unless the temporary one could not be removed.
pub record IsAtomic (sys : ReplaceSystem) (filename content : Text) (d : Directory) (r : Replaced)
    : Type 0 where
  pub before : List Directory
  pub after : List Directory
  pub split : r.states ≡ before ++ after
  pub old : Stays filename (lookup filename d) before
  pub new : Stays filename (some (new_file content)) after
  pub done : r.succeeded ≡ true → lookup filename (last_state d r.states) ≡ some (new_file content)
  pub failed : r.succeeded ≡ false → sys.directory_fsync_error ≡ none → after ≡ []
  pub others :
      sys.unlink_error ≡ none
      → (k : Text) → text_eq filename k ≡ false
      → lookup k (last_state d r.states) ≡ lookup k d

lookup-erase :
    (k j : Text) (d : Directory) → lookup j (erase k d) ≡ (if text_eq k j then none else lookup j d)
unfolding lookup erase
lookup-erase k j [] = ground arith
lookup-erase k j ((i, n) ∷ d) =
    ground (arith, text_eq_iff k j, text_eq_iff i k, text_eq_iff i j, lookup-erase k j d)

last_state-append : (d e : Directory) (ds : List Directory) → last_state d (ds ++ e ∷ []) ≡ e
last_state-append d e [] = refl
last_state-append d e (x ∷ xs) = last_state-append x e xs

-- A state on the way: the name has the given file, and only the temporary one is new.
pub record IsOnTheWay (filename name : Text) (file : Option Node) (d e : Directory) : Type 0 where
  pub shows : lookup filename e ≡ file
  pub keeps :
      (k : Text) → text_eq name k ≡ false → text_eq filename k ≡ false → lookup k e ≡ lookup k d

module _ (sys : ReplaceSystem) (filename name content : Text) (d : Directory)
    (fresh : lookup name d ≡ none) (apart : text_eq name filename ≡ false) where
  erase-shows :
      (e : Directory) (file : Option Node)
      → IsOnTheWay filename name file d e
      → lookup filename (erase name e) ≡ file
  erase-shows e file h = ground (arith, lookup-erase name filename e, h.shows)

  erase-keeps :
      (e : Directory) (file : Option Node)
      → IsOnTheWay filename name file d e
      → (k : Text) → text_eq filename k ≡ false
      → lookup k (erase name e) ≡ lookup k d
  erase-keeps e file h k p = elim (Bool-cases (text_eq name k)) [
    | inl same ↦
        rw (lookup-erase name k e)
          (rw same (subst (λ j. none ≡ lookup j d) ((text_eq_iff name k).0 same) (sym fresh)))
    | inr other ↦ rw (lookup-erase name k e) (rw other (h.keeps k other p))
  ]

  pub give_up-IsAtomic :
      (why : Text) (states : List Directory) (e : Directory)
      → Stays filename (lookup filename d) states
      → IsOnTheWay filename name (lookup filename d) d e
      → IsAtomic sys filename content d (give_up sys name why states e)
  unfolding give_up
  give_up-IsAtomic why states e s h = elim (Option-cases sys.unlink_error) [
    | inl removed ↦ record {
      before = states ++ (erase name e ∷ []);
      after = [];
      split = ground (arith, removed, append-nil (states ++ (erase name e ∷ [])));
      old =
          All-append (λ d'. lookup filename d' ≡ lookup filename d) states _ s
            (erase-shows e _ h, tt);
      new = tt;
      done = λ k. ground (arith, k);
      failed = λ _ _. refl;
      others = λ _ k p.
          ground (arith, removed, last_state-append d (erase name e) states, erase-keeps e _ h k p);
    }
    | inr (late, kept) ↦ record {
      before = states;
      after = [];
      split = ground (arith, kept, append-nil states);
      old = s;
      new = tt;
      done = λ k. ground (arith, k);
      failed = λ _ _. refl;
      others = λ u k p. ground (arith, kept, u);
    }
  ]

  abbrev renamed : Directory → Directory
  renamed e = assign filename (new_file content) (erase name e)

  renamed-shows : (e : Directory) → lookup filename (renamed e) ≡ some (new_file content)
  renamed-shows e = ground (
    arith,
    lookup-assign filename filename (new_file content) (erase name e),
    text_eq_refl filename,
  )

  renamed-keeps :
      (e : Directory)
      → IsOnTheWay filename name (lookup filename d) d e
      → (k : Text) → text_eq filename k ≡ false
      → lookup k (renamed e) ≡ lookup k d
  renamed-keeps e h k p =
      ground
        (arith, lookup-assign filename k (new_file content) (erase name e), erase-keeps e _ h k p)

  renamed-IsOnTheWay :
      (e : Directory)
      → IsOnTheWay filename name (lookup filename d) d e
      → IsOnTheWay filename name (some (new_file content)) d (renamed e)
  renamed-IsOnTheWay e h = record {
    shows = renamed-shows e;
    keeps = λ k _ p. renamed-keeps e h k p;
  }

  -- The last `fsync` failed: the name has the new file all the same.
  late-IsAtomic :
      (why : Text) (states : List Directory) (e : Directory)
      → Stays filename (lookup filename d) states
      → IsOnTheWay filename name (lookup filename d) d e
      → sys.directory_fsync_error ≡ some why
      → IsAtomic sys filename content d
          (give_up sys name why (states ++ (renamed e ∷ [])) (renamed e))
  unfolding give_up
  late-IsAtomic why states e s h volatile = elim (Option-cases sys.unlink_error) [
    | inl removed ↦ record {
      before = states;
      after = renamed e ∷ erase name (renamed e) ∷ [];
      split =
          ground
            (arith, removed, append_assoc states (renamed e ∷ []) (erase name (renamed e) ∷ []));
      old = s;
      new = (renamed-shows e, (erase-shows (renamed e) _ (renamed-IsOnTheWay e h), tt));
      done = λ k. ground (arith, k);
      failed = λ _ k. ground (arith, volatile, k);
      others = λ _ k p. ground (
        arith,
        removed,
        last_state-append d (erase name (renamed e)) (states ++ (renamed e ∷ [])),
        erase-keeps (renamed e) _ (renamed-IsOnTheWay e h) k p,
      );
    }
    | inr (late, kept) ↦ record {
      before = states;
      after = renamed e ∷ [];
      split = ground (arith, kept);
      old = s;
      new = (renamed-shows e, tt);
      done = λ k. ground (arith, k);
      failed = λ _ k. ground (arith, volatile, k);
      others = λ u k p. ground (arith, kept, u);
    }
  ]

  pub publish-IsAtomic :
      (error : Text) (states : List Directory) (e : Directory)
      → Stays filename (lookup filename d) states
      → IsOnTheWay filename name (lookup filename d) d e
      → IsAtomic sys filename content d (publish sys filename name content error states e)
  unfolding publish give_up
  publish-IsAtomic error states e s h = elim (Option-cases sys.rename_error) [
    | inr (why, unmoved) ↦
        subst Goal (sym (unmoved_lem why unmoved)) (give_up-IsAtomic why states e s h)
    | inl moved ↦ elim (Option-cases sys.directory_fsync_error) [
      | inl durable ↦ record {
        before = states;
        after = renamed e ∷ [];
        split = ground (arith, moved, durable);
        old = s;
        new = (renamed-shows e, tt);
        done = λ _.
            ground (arith, moved, durable, last_state-append d (renamed e) states, renamed-shows e);
        failed = λ k _. ground (arith, moved, durable, k);
        others = λ _ k p.
            ground (
              arith,
              moved,
              durable,
              last_state-append d (renamed e) states,
              renamed-keeps e h k p,
            );
      }
      | inr (why, volatile) ↦
          subst Goal (sym (volatile_lem why moved volatile))
            (late-IsAtomic why states e s h volatile)
    ]
  ]
    where
      Goal : Replaced → Type 0
      Goal r = IsAtomic sys filename content d r

      unmoved_lem :
          (why : Text)
          → sys.rename_error ≡ some why
          → publish sys filename name content error states e ≡ give_up sys name why states e
      unmoved_lem why k = ground (arith, k)

      volatile_lem :
          (why : Text)
          → sys.rename_error ≡ none
          → sys.directory_fsync_error ≡ some why
          → publish sys filename name content error states e
            ≡ give_up sys name why (states ++ (renamed e ∷ [])) (renamed e)
      volatile_lem why k l = ground (arith, k, l)
