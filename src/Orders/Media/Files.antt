-- ===== src/Orders/Media/Files.antt =====
-- What an upload to an order must be: `saveMediaFile` of orders.service.ts, and magic-bytes.ts.
use handly_web_app.Prelude.{
  ℕ, suc, ◌+◌, ◌≤◌, ◌≡◌, ◌↔◌, inl, inr, true, nat_eq, ltb, some, List, [], ◌∷◌, ◌++◌,
  is_prefix-append, append-is_prefix, Rows, Rows-update, Table, length, length-append, drop, lookup,
  Rows-insert, nat_beq, Bool-cases, arith,
}
use handly_web_app.Store.{
  Uploader, Media, Order, Db, Outcome, Ensures, returns, Ensures-bind, Ensures-after, Ensures-guard,
  Ensures-require, Ensures-weaken, update_order, find_order,
}
use handly_web_app.Platform.{Platform}
use handly_web_app.Orders.Access.{get_owned, get_owned_by_master}
use handly_web_app.Orders.Media.{
  File, bytes_equal, kind_of, max_bytes, save_media_file, add_media, add_job_media, remove,
  delete_media, MediaRequest, attach, attach_evidence, detach, handle_media, run_media,
}

-- `bytesEqual` finds the expected bytes exactly when they stand in the buffer at the offset.
pub bytes_equal_iff :
    (buffer : List ℕ) (offset : ℕ) (expected : List ℕ)
    → (bytes_equal buffer offset expected ≡ true)
      ↔ ((rest : List ℕ) × (drop offset buffer ≡ expected ++ rest))
unfolding bytes_equal
bytes_equal_iff buffer offset expected = (
  λ h. is_prefix-append expected (drop offset buffer) h,
  λ r. rw r.1 (append-is_prefix expected r.0),
)

-- What is stored of a file fits its declared type and its size the limit of its kind.
pub record IsStored (p : Platform) (m : Media) : Type 0 where
  pub allowed : kind_of m.mime ≡ some m.kind
  pub small : m.size_bytes ≤ max_bytes p m.kind

abbrev pub HasMedia : Platform → Order → Type 0
HasMedia p o = (length o.media ≤ p.order_max_media) × Rows (IsStored p) o.media

remove-length : (id : ℕ) (t : Table Media) → length (remove id t) ≤ length t
remove-length id [] = omega arith
remove-length id ((k, m) ∷ t) = ground (arith, remove-length id t)

module _ (p : Platform) where
  abbrev pub AreStored : Db → Type 0
  AreStored db = Rows (HasMedia p) db.orders

  abbrev Stores : {A : Type 0} → Outcome A → Type 0
  Stores r = Ensures (λ _. AreStored) AreStored r

  remove-Rows : (id : ℕ) (t : Table Media) → Rows (IsStored p) t → Rows (IsStored p) (remove id t)
  remove-Rows id [] s = tt
  remove-Rows id ((k, m) ∷ t) s = elim (Bool-cases (nat_beq k id)) [
    | inl hit ↦ rw hit s.1
    | inr miss ↦ rw miss (s.0, remove-Rows id t s.1)
  ]

  save_media_file-AreStored :
      (id : ℕ) (order : Order) (file : File) (role : Uploader) (db : Db)
      → lookup id db.orders ≡ some order
      → AreStored db
      → Stores (save_media_file p id order file role db)
  unfolding save_media_file update_order
  save_media_file-AreStored id order file role db found s = Ensures-guard _ _ db _ s λ room.
      Ensures-require _ _ db _ s λ kind known. Ensures-guard _ _ db _ s λ genuine.
        Ensures-guard _ _ db _ s λ small. returns (
          Rows-update (HasMedia p) id _ db.orders s (λ o e h.
            let size = length-append o.media ((suc db.next_id, _) ∷ []) in
            (
              fits o room e size,
              Rows-insert (IsStored p) (suc db.next_id) _ o.media h.1
                  (record { allowed = known; small = ground (arith, small) }),
            )))
    where
      fits :
          {n : ℕ} (o : Order)
          → ltb (length order.media) p.order_max_media ≡ true
          → lookup id db.orders ≡ some o
          → n ≡ length o.media + 1
          → n ≤ p.order_max_media
      fits o room e size = ground (arith, room, found, e, size)

  get_owned-AreStored :
      (customer id : ℕ) (db : Db)
      → AreStored db
      → Ensures
          (λ o db₁. AreStored db₁ × (lookup id db₁.orders ≡ some o))
          AreStored
          (get_owned customer id db)
  unfolding get_owned find_order
  get_owned-AreStored customer id db s =
      Ensures-require _ _ db _ s λ order found. Ensures-guard _ _ db _ s λ own. returns (s, found)

  get_owned_by_master-AreStored :
      (master id : ℕ) (db : Db)
      → AreStored db
      → Ensures
          (λ o db₁. AreStored db₁ × (lookup id db₁.orders ≡ some o))
          AreStored
          (get_owned_by_master master id db)
  unfolding get_owned_by_master find_order
  get_owned_by_master-AreStored master id db s =
      Ensures-require _ _ db _ s λ order found. Ensures-guard _ _ db _ s λ own. returns (s, found)

  add_media-AreStored :
      (customer id : ℕ) (file : File) (db : Db)
      → AreStored db
      → Stores (add_media p customer id file db)
  unfolding add_media
  add_media-AreStored customer id file db s =
      Ensures-bind (get_owned-AreStored customer id db s) λ order db₁ h.
        Ensures-guard _ _ db₁ _ h.0 λ editable.
          Ensures-bind (save_media_file-AreStored id order file _ db₁ h.1 h.0)
            λ _ db₂ s₂. Ensures-weaken (λ _ _ k. k.0) (get_owned-AreStored customer id db₂ s₂)

  add_job_media-AreStored :
      (master id : ℕ) (file : File) (db : Db)
      → AreStored db
      → Stores (add_job_media p master id file db)
  unfolding add_job_media
  add_job_media-AreStored master id file db s =
      Ensures-bind (get_owned_by_master-AreStored master id db s) λ order db₁ h.
        Ensures-guard _ _ db₁ _ h.0 λ working.
          Ensures-bind (save_media_file-AreStored id order file _ db₁ h.1 h.0) λ _ db₂ s₂.
            Ensures-weaken (λ _ _ k. k.0) (get_owned_by_master-AreStored master id db₂ s₂)

  delete_media-AreStored :
      (customer id media : ℕ) (db : Db) → AreStored db → Stores (delete_media customer id media db)
  unfolding delete_media update_order
  delete_media-AreStored customer id media db s =
      Ensures-bind (get_owned-AreStored customer id db s) λ order db₁ h.
        Ensures-require _ _ db₁ _ h.0 λ row found.
          Ensures-weaken (λ _ _ k. k.0)
            (get_owned-AreStored customer id _ (
              Rows-update (HasMedia p) id _ db₁.orders h.0
                (λ o e k. (shorter media o k.0, remove-Rows media o.media k.1))))
    where
      shorter :
          (media : ℕ) (o : Order)
          → length o.media ≤ p.order_max_media
          → length (remove media o.media) ≤ p.order_max_media
      shorter media o h = omega (arith, remove-length media o.media, h)

  -- Whatever is attached to orders and removed from them, by whomever, no order holds more files than the
  -- configuration allows, and each is of a type of its kind and no larger than that kind may be, if this
  -- was so before.
  pub run_media-AreStored :
      (requests : List MediaRequest) (db : Db) → AreStored db → AreStored (run_media p requests db)
  unfolding run_media handle_media
  run_media-AreStored [] db s = s
  run_media-AreStored (attach customer id file ∷ rs) db s =
      run_media-AreStored rs _ (Ensures-after (add_media-AreStored customer id file db s))
  run_media-AreStored (attach_evidence master id file ∷ rs) db s =
      run_media-AreStored rs _ (Ensures-after (add_job_media-AreStored master id file db s))
  run_media-AreStored (detach customer id media ∷ rs) db s =
      run_media-AreStored rs _ (Ensures-after (delete_media-AreStored customer id media db s))
