-- ===== src/Conformance/Client/Reading.antt =====
-- The loops over Recv of the conformance client, by what a stream delivers.
use easy_rpc_go.Base.{
  ℕ, zero, suc, ◌≤◌, ◌≡◌, refl, ap, arith, List, [], ◌∷◌, Option, none, some, Result, ok, err,
}
use easy_rpc_go.Text.{Bytes, codes}
use easy_rpc_go.Code.{Error}
use easy_rpc_go.Frame.{Gzip}
use easy_rpc_go.Json.{JsonText}
use easy_rpc_go.Client.Stream.{HttpStream, Collected, gather, recv, collect}
use easy_rpc_go.Conformance.Client.{Checked, ◌>>=◌, ◌>>◌, round, read_all}

module _ (gzip : Gzip) (text : JsonText) where
  gather-more :
      (r : Result Error Bytes × HttpStream) (m n : ℕ) (e : Error)
      → ((s : HttpStream)
          → (collect gzip text m s).error ≡ some e
          → collect gzip text n s ≡ collect gzip text m s)
      → (gather r (collect gzip text m)).error ≡ some e
      → gather r (collect gzip text n) ≡ gather r (collect gzip text m)
  gather-more (err x, s) m n e more ends = refl
  gather-more (ok p, s) m n e more ends =
      ap (λ (c : Collected). record c { messages = p ∷ c.messages }) (more s ends)

  -- More rounds than a stream needs change nothing.
  pub collect_more :
      (m n : ℕ) (e : Error) (s : HttpStream)
      → m ≤ n
      → (collect gzip text m s).error ≡ some e
      → collect gzip text n s ≡ collect gzip text m s
  unfolding collect
  collect_more zero n e s enough ends = cc ends
  collect_more (suc m) zero e s enough ends = absurd (omega (arith, enough))
  collect_more (suc m) (suc n) e s enough ends =
      gather-more (recv gzip text s) m n e (λ t. collect_more m n e t (omega arith)) ends

  module _ {I : Type 0} (decode : Bytes → Checked I) (ending : Error → Checked (Unit {0})) where
    -- The loop over what is collected.
    abbrev settle_messages : List Bytes → Option Error → HttpStream → Checked (List I × HttpStream)
    settle_messages [] none s = err (codes "out of fuel")
    settle_messages [] (some e) s = do ending e; ok ([], s)
    settle_messages (p ∷ ps) e s = do
      i ← decode p
      (is, s') ← settle_messages ps e s
      ok (i ∷ is, s')

    abbrev pub settle : Collected → Checked (List I × HttpStream)
    settle c = settle_messages c.messages c.error c.stream

    round-gather :
        (r : Result Error Bytes × HttpStream) (n : ℕ)
        → ((s : HttpStream) → read_all gzip text decode ending n s ≡ settle (collect gzip text n s))
        → round gzip text decode ending r (read_all gzip text decode ending n)
          ≡ settle (gather r (collect gzip text n))
    round-gather (err e, s) n rest = refl
    round-gather (ok p, s) n rest = rw (rest s) refl

    pub read_all-collect :
        (n : ℕ) (s : HttpStream)
        → read_all gzip text decode ending n s ≡ settle (collect gzip text n s)
    unfolding read_all collect
    read_all-collect zero s = refl
    read_all-collect (suc n) s = round-gather (recv gzip text s) n (read_all-collect n)
