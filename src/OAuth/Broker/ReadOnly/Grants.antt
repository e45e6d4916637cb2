-- ===== src/OAuth/Broker/ReadOnly/Grants.antt =====
-- Every call of the store of src/syllva/mcp/transports/oauth.py keeps its grants read-only, where the
-- codes that it stores are.
use syllva.Prelude.{
  ℕ, Text, teq, teq_iff, teq_refl, Bool, true, false, ◌&&◌, List, [], ◌∷◌, ◌≡◌, refl, arith, any,
}
use syllva.Prelude.Dict.{every_value, every-insert, every-map_values, every-lookup}
use syllva.OAuth.{OAuthDb, CodeRow, RefreshRow, AccessRow}
use syllva.OAuth.Codes.{activate_policy, retire_code, retire_refresh, retire_access}
use syllva.OAuth.Tokens.{revoke_family, revoke_refresh, revoke_access, exceeds}
use syllva.OAuth.Effects.{
  Effect, keeps, retires, revokes_family, issues_code, grants_code, grants_refresh, Step-Effect,
}
use syllva.OAuth.Steps.{Step, Issues}
use syllva.OAuth.Broker.{read_scope, all_read}

all_read-any :
    (s : Text) (original : List Text)
    → all_read original ≡ true
    → any (teq s) original ≡ true
    → teq read_scope s ≡ true
unfolding all_read any
all_read-any s [] a h = ground arith
all_read-any s (t ∷ ts) a h =
    ground (arith, all_read-any s ts, teq_iff s t, teq_iff read_scope t, teq_refl read_scope)

-- A request for no more than a read-only grant is read-only.
exceeds-all_read :
    (scopes original : List Text)
    → all_read original ≡ true
    → exceeds scopes original ≡ false
    → all_read scopes ≡ true
unfolding all_read any
exceeds-all_read [] original a h = refl
exceeds-all_read (s ∷ ss) original a h =
    ground (arith, exceeds-all_read ss original a, all_read-any s original a)

module _ (uri : Text) where
  abbrev pub is_granted : (scopes : List Text) → (resource : Text) → Bool
  is_granted scopes resource = all_read scopes && teq resource uri

  abbrev pub code_granted : CodeRow → Bool
  code_granted r = is_granted r.scopes r.resource

  abbrev pub refresh_granted : RefreshRow → Bool
  refresh_granted r = is_granted r.scopes r.resource

  abbrev pub access_granted : AccessRow → Bool
  access_granted r = is_granted r.scopes r.resource

  -- Every code and every token is for the read scope and for the resource.
  pub record IsReadOnly (db : OAuthDb) : Type 0 where
    pub codes : every_value code_granted db.codes ≡ true
    pub refresh_tokens : every_value refresh_granted db.refresh_tokens ≡ true
    pub access_tokens : every_value access_granted db.access_tokens ≡ true

  pub activate_policy-IsReadOnly :
      (policy : Text) (now : ℕ) (db : OAuthDb)
      → IsReadOnly db
      → IsReadOnly (activate_policy policy now db)
  unfolding activate_policy
  activate_policy-IsReadOnly policy now db w = record {
    codes =
        every-map_values code_granted (retire_code policy now) db.codes (λ r h. ground arith)
          w.codes;
    refresh_tokens =
        every-map_values refresh_granted (retire_refresh policy now) db.refresh_tokens
          (λ r h. ground arith) w.refresh_tokens;
    access_tokens =
        every-map_values access_granted (retire_access policy now) db.access_tokens
          (λ r h. ground arith) w.access_tokens;
  }

  revoke_family-IsReadOnly :
      (family : Text) (now : ℕ) (db : OAuthDb)
      → IsReadOnly db
      → IsReadOnly (revoke_family family now db)
  unfolding revoke_family
  revoke_family-IsReadOnly family now db w = record {
    codes = w.codes;
    refresh_tokens =
        every-map_values refresh_granted (revoke_refresh family now) db.refresh_tokens
          (λ r h. ground arith) w.refresh_tokens;
    access_tokens =
        every-map_values access_granted (revoke_access family now) db.access_tokens
          (λ r h. ground arith) w.access_tokens;
  }

  Effect-IsReadOnly :
      (digest : Text → Text) (F : Text → Type 0) (G : CodeRow → Type 0) (db e : OAuthDb)
      → Effect digest F G db e
      → ((row : CodeRow) → G row → code_granted row ≡ true)
      → IsReadOnly db
      → IsReadOnly e
  Effect-IsReadOnly digest F G db e (keeps s) ok w = record {
    codes = rw s.codes w.codes;
    refresh_tokens = rw s.refresh_tokens w.refresh_tokens;
    access_tokens = rw s.access_tokens w.access_tokens;
  }
  Effect-IsReadOnly digest F G db e (retires policy now p) ok w =
      rw p (activate_policy-IsReadOnly policy now db w)
  Effect-IsReadOnly digest F G db e (revokes_family family now p) ok w =
      rw p (revoke_family-IsReadOnly family now db w)
  Effect-IsReadOnly digest F G db e (issues_code k row g n p) ok w = rw p (record {
    codes = every-insert code_granted k _ db.codes (ok row g) w.codes;
    refresh_tokens = w.refresh_tokens;
    access_tokens = w.access_tokens;
  })
  Effect-IsReadOnly digest F G db e (grants_code now a r x y family k id policy f g) ok w =
      let h = every-lookup code_granted k g.row db.codes w.codes g.found in
      rw g.written (record {
        codes = every-insert code_granted k _ db.codes h w.codes;
        refresh_tokens = every-insert refresh_granted _ _ db.refresh_tokens h w.refresh_tokens;
        access_tokens = every-insert access_granted _ _ db.access_tokens h w.access_tokens;
      })
  Effect-IsReadOnly digest F G db e (grants_refresh now a r x y k id policy scopes g) ok w =
      let h = every-lookup refresh_granted k g.row db.refresh_tokens w.refresh_tokens g.found in
      let s = exceeds-all_read scopes g.row.scopes (ground arith) g.within_scopes in
      let i : is_granted scopes g.row.resource ≡ true = ground arith in
      rw g.written (record {
        codes = w.codes;
        refresh_tokens =
            every-insert refresh_granted _ _ _ i
              (every-insert refresh_granted k _ db.refresh_tokens h w.refresh_tokens);
        access_tokens = every-insert access_granted _ _ db.access_tokens i w.access_tokens;
      })

  pub Step-IsReadOnly :
      (digest : Text → Text) {db e : OAuthDb} (st : Step digest db e)
      → ((row : CodeRow) → Issues digest row st → code_granted row ≡ true)
      → IsReadOnly db
      → IsReadOnly e
  Step-IsReadOnly digest {db} {e} st ok w =
      Effect-IsReadOnly digest _ _ db e (Step-Effect digest st) ok w
