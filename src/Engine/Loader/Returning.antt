-- ===== src/Engine/Loader/Returning.antt =====
-- The counters of a write are never the reason that a load fails.
use oracle_repo.Base.{refl, ◌≡◌, ap, ◌∙◌, String, Bool, none}
use oracle_repo.RunSpec.{RunSpec, target_fqn}
use oracle_repo.Platform.{Platform, Result, ok, err}
use oracle_repo.Engine.Batches.{LoadResult}
use oracle_repo.Engine.Cluster.{Cluster, Step, or_else, give, bind_step, ◌>>=◌}
use oracle_repo.Engine.Loader.{
  Metrics, ensure_table, write_batch, collect_metrics, load_result, write,
}

-- Whatever the lake, the step returns.
abbrev Gives : {L A : Type 0} → Step L A → Type 0
Gives {L} {A} m = (lake : L) → (a : A) × (lake' : L) × (m lake ≡ (ok a, lake'))

module _ {L A : Type 0} where
  Gives-give : (a : A) → Gives (give {L = L} a)
  unfolding give
  Gives-give a lake = (a, lake, refl)

  Gives-or_else : (a : A) (m : Step L A) → Gives (or_else a m)
  unfolding or_else
  Gives-or_else a m lake = returned (m lake)
    where
      caught : Result A × L → Result A × L
      caught (r, l) = elim r [ ok b ↦ (ok b, l) | err e ↦ (ok a, l) ]

      returned : (r : Result A × L) → (b : A) × (lake' : L) × (caught r ≡ (ok b, lake'))
      returned (ok b, l) = (b, l, refl)
      returned (err e, l) = (a, l, refl)

module _ {L A B : Type 0} where
  -- A step that returned, in a chain.
  after :
      (m : Step L A) (f : A → Step L B) {a : A} {lake lake' : L}
      → m lake ≡ (ok a, lake')
      → (m >>= f) lake ≡ f a lake'
  unfolding ◌>>=◌
  after m f e = ap (λ x. bind_step x.0 f x.1) e

  Gives-bind :
      (m : Step L A) (f : A → Step L B) → Gives m → ((a : A) → Gives (f a)) → Gives (m >>= f)
  Gives-bind m f h k lake =
      let (a, l, e) = h lake in let (b, l', e') = k a l in (b, l', after m f e ∙ e')

module _ {p : Platform} (cluster : Cluster p) where
  Gives-collect_metrics : (spec : RunSpec) → Gives (collect_metrics cluster spec)
  unfolding collect_metrics
  Gives-collect_metrics spec = Gives-bind _ _ (Gives-or_else none _) (λ row. Gives-give _)

  -- Once the table stands and the batch is written, write returns a result, which says whether
  -- the table was created, whatever the query of the history returns or raises.
  pub write_returns :
      (dataframe : p.Frame) (spec : RunSpec) (view : String) (created : Bool)
      (lake lake' lake'' : p.Lake)
      → ensure_table cluster spec dataframe lake ≡ (ok created, lake')
      → write_batch cluster dataframe spec view lake' ≡ (ok tt, lake'')
      → (r : LoadResult) × (after : p.Lake) × (write cluster dataframe spec view lake
          ≡ (ok r, after))
        × (r.table_created ≡ created)
        × (r.target ≡ target_fqn spec.target)
  unfolding write load_result give
  write_returns dataframe spec view created lake lake' lake'' h k =
      let (m, l, e) = Gives-collect_metrics spec lake'' in
      (load_result spec created m, l, ran m l e, refl, refl)
    where
      ran :
          (m : Metrics) (l : p.Lake)
          → collect_metrics cluster spec lake'' ≡ (ok m, l)
          → write cluster dataframe spec view lake ≡ (ok (load_result spec created m), l)
      ran m l e = after _ _ h ∙ (after _ _ k ∙ after _ _ e)
