-- ===== src/LowLevel/Answering.antt =====
-- How many answers a command gives.
pub mod Quiet
pub mod Lookups
pub mod Handlers
pub mod Listings
pub mod Protocol
use mathlib.Core.Path.{subst}
use mathlib.Core.Option.{some-injective}
use tag_filesystem.Base.Store.{Run, pure, ◌>>=◌, ◌>>◌, gets, modify, for_each}
use tag_filesystem.Fuse.Os.{Result, done, failed}
use tag_filesystem.Base.{
  ℕ, ◌≡◌, ◌∙◌, refl, sym, ap, Bool, true, false, Option, none, some, List, [], ◌∷◌, ◌++◌, arith,
  if◌then◌else◌, Option-cases, inl, inr,
}
use tag_filesystem.Cutil.HashTable.{Ptr, Uthash}
use tag_filesystem.LowLevel.Os.{Os}
use tag_filesystem.LowLevel.State.{
  Tag, File, Inode, Session, Reply, Cmd, load_tag, store_tag, free_tag, new_tag, load_file,
  store_file, new_file, load_inode, store_inode, free_inode, new_inode, not_null, syscall, reply,
  put_tag, put_file, put_inode,
}

module _ ⦃U : Uthash⦄ ⦃O : Os⦄ where
  -- one answer more, or the same answers
  abbrev pub Grows : Bool → List Reply → List Reply → Type 0
  Grows true l l' = (r : Reply) × (l' ≡ l ++ r ∷ [])
  Grows false l l' = l' ≡ l

  -- Where the command returns, it has given one answer, or none.
  pub record Gives {A : Type 0} (one : Bool) (m : Cmd A) : Type 0 where
    pub grows : (s s' : Session) (a : A) → m s ≡ some (a, s') → Grows one s.replies s'.replies

  abbrev pub IsQuiet : {A : Type 0} → Cmd A → Type 0
  IsQuiet m = Gives false m

  abbrev pub AnswersOnce : Cmd (Unit {0}) → Type 0
  AnswersOnce m = Gives true m

  pub Gives-bind :
      {A B : Type 0} {one : Bool} {m : Cmd A} {k : A → Cmd B}
      → IsQuiet m
      → ((a : A) → Gives one (k a))
      → Gives one (m >>= k)
  Gives-bind {one = one} {m = m} {k = k} quiet later = record {
    grows = λ s s' b e. elim (Option-cases (m s)) [
      | inl stopped ↦ absurd (ground (arith, (rw (stopped, ◌>>=◌) at e)))
      | inr ((a, s1), run) ↦
          subst (λ l. Grows one l s'.replies) (quiet.grows s s1 a run)
            ((later a).grows s1 s' b (rw (run, ◌>>=◌) at e))
    ];
  }

  pub Gives-if :
      {A : Type 0} {one : Bool} {m k : Cmd A} (b : Bool)
      → Gives one m
      → Gives one k
      → Gives one (if b then m else k)
  Gives-if true gm gk = gm
  Gives-if false gm gk = gk

  pub Gives-found :
      {A B : Type 0} {one : Bool} {m : Cmd A} {k : B → Cmd A} (o : Option B)
      → Gives one m
      → ((b : B) → Gives one (k b))
      → Gives one (elim o [ none ↦ m | some b ↦ k b ])
  Gives-found none gm gk = gm
  Gives-found (some b) gm gk = gk b

  pub Gives-result :
      {A B : Type 0} {one : Bool} {m : ℕ → Cmd A} {k : B → Cmd A} (r : Result B)
      → ((e : ℕ) → Gives one (m e))
      → ((b : B) → Gives one (k b))
      → Gives one (elim r [ failed e ↦ m e | done b ↦ k b ])
  Gives-result (failed e) gm gk = gm e
  Gives-result (done b) gm gk = gk b

  -- a command that always returns
  pub Gives-total :
      {A : Type 0} {m : Cmd A} (one : Bool) (g : Session → A) (h : Session → Session)
      → ((s : Session) → m s ≡ some (g s, h s))
      → ((s : Session) → Grows one s.replies (h s).replies)
      → Gives one m
  Gives-total one g h run same = record {
    grows = λ s s' a e.
        let ends : (g s, h s) ≡ (a, s') = some-injective _ _ (sym (run s) ∙ e) in
        subst (λ l. Grows one s.replies l) (ap (λ x. x.1.replies) ends) (same s);
  }

  -- a command that returns where it finds something
  pub IsQuiet-found :
      {A B : Type 0} {m : Cmd A} (o : Session → Option B) (g : B → Session → A)
      (h : B → Session → Session)
      → ((s : Session) → o s ≡ none → m s ≡ none)
      → ((s : Session) (b : B) → o s ≡ some b → m s ≡ some (g b s, h b s))
      → ((s : Session) (b : B) → (h b s).replies ≡ s.replies)
      → IsQuiet m
  IsQuiet-found o g h stop run same = record {
    grows = λ s s' a e. elim (Option-cases (o s)) [
      | inl gone ↦ absurd (ground (arith, sym (stop s gone) ∙ e))
      | inr (b, here) ↦
          ap (λ x. x.1.replies) (sym (some-injective _ _ (sym (run s b here) ∙ e))) ∙ same s b
    ];
  }

  pub IsQuiet-pure : {A : Type 0} (a : A) → IsQuiet (pure a)
  IsQuiet-pure a = Gives-total false (λ _. a) (λ s. s) (λ s. refl) (λ s. refl)

  pub Gives-stop : {A : Type 0} {one : Bool} → Gives {A = A} one (λ s. none)
  Gives-stop = record { grows = λ s s' a e. absurd (ground arith) }

  pub IsQuiet-gets : {A : Type 0} (g : Session → A) → IsQuiet (gets g)
  IsQuiet-gets g = Gives-total false g (λ s. s) (λ s. refl) (λ s. refl)

  pub modify-IsQuiet :
      {g : Session → Session} → ((s : Session) → (g s).replies ≡ s.replies) → IsQuiet (modify g)
  modify-IsQuiet {g = g} same = Gives-total false (λ _. tt) g (λ s. refl) same

  pub reply-AnswersOnce : (r : Reply) → AnswersOnce (reply r)
  unfolding reply
  reply-AnswersOnce r = Gives-total true (λ _. tt) _ (λ s. refl) (λ s. (r, refl))

  pub not_null-IsQuiet : {A : Type 0} (o : Option A) → IsQuiet (not_null o)
  not_null-IsQuiet none = Gives-stop
  not_null-IsQuiet (some a) = IsQuiet-pure a

  pub syscall-IsQuiet : {A : Type 0} (g : O.World → A × O.World) → IsQuiet (syscall g)
  syscall-IsQuiet g = Gives-total false _ _ (λ s. refl) (λ s. refl)

  pub new_tag-IsQuiet : (t : Tag) → IsQuiet (new_tag t)
  unfolding new_tag
  new_tag-IsQuiet t = Gives-total false _ _ (λ s. refl) (λ s. refl)

  pub new_file-IsQuiet : (f : File) → IsQuiet (new_file f)
  unfolding new_file
  new_file-IsQuiet f = Gives-total false _ _ (λ s. refl) (λ s. refl)

  pub new_inode-IsQuiet : (i : Inode) → IsQuiet (new_inode i)
  unfolding new_inode
  new_inode-IsQuiet i = Gives-total false _ _ (λ s. refl) (λ s. refl)

  pub load_tag-IsQuiet : (p : Ptr) → IsQuiet (load_tag p)
  unfolding load_tag
  load_tag-IsQuiet p =
      IsQuiet-found (λ s. s.tag_at p) (λ x s. x) (λ x s. s) (λ s e. rw (e, load_tag) refl)
        (λ s x e. rw (e, load_tag) refl) (λ s x. refl)

  pub store_tag-IsQuiet : (p : Ptr) (x : Tag) → IsQuiet (store_tag p x)
  unfolding store_tag
  store_tag-IsQuiet p x =
      IsQuiet-found (λ s. s.tag_at p) (λ _ s. tt) (λ _. put_tag p (some x))
        (λ s e. rw (e, store_tag) refl) (λ s y e. rw (e, store_tag) refl) (λ s y. refl)

  pub free_tag-IsQuiet : (p : Ptr) → IsQuiet (free_tag p)
  unfolding free_tag
  free_tag-IsQuiet p =
      IsQuiet-found (λ s. s.tag_at p) (λ _ s. tt) (λ _. put_tag p none)
        (λ s e. rw (e, free_tag) refl) (λ s y e. rw (e, free_tag) refl) (λ s y. refl)

  pub load_file-IsQuiet : (p : Ptr) → IsQuiet (load_file p)
  unfolding load_file
  load_file-IsQuiet p =
      IsQuiet-found (λ s. s.file_at p) (λ x s. x) (λ x s. s) (λ s e. rw (e, load_file) refl)
        (λ s x e. rw (e, load_file) refl) (λ s x. refl)

  pub store_file-IsQuiet : (p : Ptr) (x : File) → IsQuiet (store_file p x)
  unfolding store_file
  store_file-IsQuiet p x =
      IsQuiet-found (λ s. s.file_at p) (λ _ s. tt) (λ _. put_file p x)
        (λ s e. rw (e, store_file) refl) (λ s y e. rw (e, store_file) refl) (λ s y. refl)

  pub load_inode-IsQuiet : (p : Ptr) → IsQuiet (load_inode p)
  unfolding load_inode
  load_inode-IsQuiet p =
      IsQuiet-found (λ s. s.inode_at p) (λ x s. x) (λ x s. s) (λ s e. rw (e, load_inode) refl)
        (λ s x e. rw (e, load_inode) refl) (λ s x. refl)

  pub store_inode-IsQuiet : (p : Ptr) (x : Inode) → IsQuiet (store_inode p x)
  unfolding store_inode
  store_inode-IsQuiet p x =
      IsQuiet-found (λ s. s.inode_at p) (λ _ s. tt) (λ _. put_inode p (some x))
        (λ s e. rw (e, store_inode) refl) (λ s y e. rw (e, store_inode) refl) (λ s y. refl)

  pub free_inode-IsQuiet : (p : Ptr) → IsQuiet (free_inode p)
  unfolding free_inode
  free_inode-IsQuiet p =
      IsQuiet-found (λ s. s.inode_at p) (λ _ s. tt) (λ _. put_inode p none)
        (λ s e. rw (e, free_inode) refl) (λ s y e. rw (e, free_inode) refl) (λ s y. refl)
