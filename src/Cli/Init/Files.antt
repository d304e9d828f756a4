-- ===== src/Cli/Init/Files.antt =====
-- `init_ca`: what it leaves in the directory.
use scrooge_dlp.Common.{
  ℕ, zero, suc, All, String, Bool, true, false, not, ◌&&◌, Option, none, some, List, [], ◌∷◌, ◌≡◌,
  refl, sym, ap, ◌∙◌, subst, Outcome, ok, err, map_err, if◌then◌else◌,
}
use scrooge_dlp.Certificates.{CaError, Rcgen, RootCa, generate, generate_server_csr, sign_csr}
use scrooge_dlp.Cli.Dir.{
  permissions, after, change-ok, lift-ok, File, CertDir, any_exists, written, protected, pure, lift,
  look, change, ◌>>=◌, ◌>>◌, CliError, writing, ca,
}
use scrooge_dlp.Cli.Init.{InitEnd, skipped, generated, InitCa, make, init_ca}

-- An empty directory.
abbrev pub empty : CertDir
empty = record { ca_pem = none; ca_key = none; server_pem = none; server_key = none }

abbrev pub text_of : Option File → Option String
text_of none = none
text_of (some f) = some f.text

-- The step that fails, with so many before it that do not: the directory, the certificate and the key
-- of the root, the certificate and the key of the server, the permissions of the two keys.
abbrev pub fails_at : ℕ → List Bool
fails_at zero = true ∷ []
fails_at (suc n) = false ∷ fails_at n

abbrev pub file : String → File
file t = record { text = t; is_private = false }

module _ (r : Rcgen) (args : InitCa r) where
  -- A run that asks for no overwriting changes no file where one of the four exists, whatever fails.
  pub init_ca-keeps :
      (fs : List Bool) (d : CertDir)
      → args.force ≡ false
      → any_exists d ≡ true
      → (init_ca r args fs d).2 ≡ d
  unfolding init_ca pure lift look change ◌>>=◌
  init_ca-keeps [] d f e = rw (f, e)
  init_ca-keeps (true ∷ fs) d f e = refl
  init_ca-keeps (false ∷ fs) d f e = rw (f, e)

  -- The directory holds what was made in one run, and only the owner reads the keys.
  pub record IsComplete (d : CertDir) : Type 0 where
    pub root : RootCa r
    pub csr : String
    pub key : String
    pub cert : String
    pub made : generate r args.ca_seed args.ca_pair args.ca_cn ≡ ok root
    pub asked :
        generate_server_csr r args.request_seed args.server_pair args.server_cn args.san
        ≡ ok (csr, key)
    pub signed : sign_csr r args.server_seed root csr ≡ ok cert
    pub ca_pem : text_of d.ca_pem ≡ some root.cert_pem
    pub ca_key : d.ca_key ≡ some (record { text = root.key_pem; is_private = true })
    pub server_pem : text_of d.server_pem ≡ some cert
    pub server_key : d.server_key ≡ some (record { text = key; is_private = true })

  text_of-written : (t : String) (f : Option File) → text_of (written t f) ≡ some t
  text_of-written t none = refl
  text_of-written t (some f) = refl

  protected-written :
      (t : String) (f : Option File)
      → protected (written t f) ≡ some (record { text = t; is_private = true })
  protected-written t none = refl
  protected-written t (some f) = refl

  map_err-ok : {A : Type 0} (o : Outcome CaError A) (a : A) → map_err ca o ≡ ok a → o ≡ ok a
  map_err-ok (err e) a h = absurd (cc h)
  map_err-ok (ok b) a h = ap ok (cc h)

  -- Two changes of the directory that both work.
  both-ok :
      (f g : CertDir → CertDir) (x y : CliError) (fs gs : List Bool) (d e : CertDir) (u : Unit {0})
      → (change f x >> change g y) fs d ≡ (ok u, gs, e)
      → e ≡ g (f d)
  both-ok f g x y fs gs d e u h =
      after (change f x) (λ v. change g y) fs gs d e u h
        (λ v hs c first rest.
          change-ok g y hs gs c e u rest ∙ ap g (change-ok f x fs hs d c v first))

  abbrev root_files : RootCa r → CertDir → CertDir
  root_files root d = record d {
    ca_pem = written root.cert_pem d.ca_pem;
    ca_key = written root.key_pem d.ca_key;
  }

  abbrev server_files : String → String → CertDir → CertDir
  server_files cert key d = record d {
    server_pem = written cert d.server_pem;
    server_key = written key d.server_key;
  }

  abbrev protect_keys : CertDir → CertDir
  protect_keys d = record d { ca_key = protected d.ca_key; server_key = protected d.server_key }

  make-IsComplete :
      (fs gs : List Bool) (d e : CertDir) (b : InitEnd)
      → make r args fs d ≡ (ok b, gs, e)
      → IsComplete e
  unfolding pure
  make-IsComplete fs gs d e b h = after _ _ fs gs d e b h (λ root f1 d1 h1 k1.
      after _ _ f1 gs d1 e b k1 (λ u2 f2 d2 h2 k2. after _ _ f2 gs d2 e b k2 (λ request f3 d3 h3 k3.
        after _ _ f3 gs d3 e b k3 (λ cert f4 d4 h4 k4. after _ _ f4 gs d4 e b k4 (λ u5 f5 d5 h5 k5.
          after _ _ f5 gs d5 e b k5 (λ u6 f6 d6 h6 k6.
            subst IsComplete
              (sym (
                sym (ap (λ x. x.2) k6)
                ∙ both-ok _ _ _ _ f5 f6 d5 d6 u6 h6
                ∙ ap protect_keys (both-ok _ _ _ _ f4 f5 d4 d5 u5 h5)
                ∙ ap (λ c. protect_keys (server_files cert request.1 c))
                    ((lift-ok _ f3 f4 d3 d4 cert h4).1 ∙ (lift-ok _ f2 f3 d2 d3 request h3).1)
                ∙ ap (λ c. protect_keys (server_files cert request.1 c))
                    (both-ok _ _ _ _ f1 f2 d1 d2 u2 h2)
                ∙ ap (λ c. protect_keys (server_files cert request.1 (root_files root c)))
                    (lift-ok _ fs f1 d d1 root h1).1))
              (record {
                root = root;
                csr = request.0;
                key = request.1;
                cert = cert;
                made = map_err-ok _ root (lift-ok _ fs f1 d d1 root h1).0;
                asked = map_err-ok _ request (lift-ok _ f2 f3 d2 d3 request h3).0;
                signed = map_err-ok _ cert (lift-ok _ f3 f4 d3 d4 cert h4).0;
                ca_pem = text_of-written root.cert_pem d.ca_pem;
                ca_key = protected-written root.key_pem d.ca_key;
                server_pem = text_of-written cert d.server_pem;
                server_key = protected-written request.1 d.server_key;
              })))))))

  -- A run that ends by making files, whatever failed before, leaves a directory that is complete, with
  -- the certificate of the server signed by the root of the same run.
  pub init_ca-IsComplete :
      (fs gs : List Bool) (d e : CertDir)
      → init_ca r args fs d ≡ (ok generated, gs, e)
      → IsComplete e
  unfolding init_ca pure look
  init_ca-IsComplete fs gs d e h = after _ _ fs gs d e generated h (λ u f1 d1 h1 k1.
      after _ _ f1 gs d1 e generated k1
        (λ c f2 d2 h2 k2. by_test (any_exists c && not args.force) f2 d2 k2))
    where
      by_test :
          (b : Bool) (f2 : List Bool) (d2 : CertDir)
          → (if b then pure skipped else make r args) f2 d2 ≡ (ok generated, gs, e)
          → IsComplete e
      by_test true f2 d2 k = absurd (cc (ap (λ x. x.0) k))
      by_test false f2 d2 k = make-IsComplete f2 gs d2 e generated k

  module _ (root : RootCa r) (csr key cert : String)
      (made : generate r args.ca_seed args.ca_pair args.ca_cn ≡ ok root)
      (asked : generate_server_csr r args.request_seed args.server_pair args.server_cn args.san
        ≡ ok (csr, key))
      (signed : sign_csr r args.server_seed root csr ≡ ok cert) where
    -- The first run into an empty directory, where nothing fails.
    pub init_ca-fills : init_ca r args [] empty ≡ (
      ok generated,
      [],
      record {
        ca_pem = some (file root.cert_pem);
        ca_key = some (record { text = root.key_pem; is_private = true });
        server_pem = some (file cert);
        server_key = some (record { text = key; is_private = true });
      },
    )
    unfolding init_ca pure lift look change ◌>>=◌
    init_ca-fills = rw (made, asked, signed)

    -- A first run into an empty directory that fails at the certificate or the key of the server, or at
    -- the permissions of the root's key, ends in an error and leaves that key, in a file whose mode the
    -- run did not set; a further run without `--force` does not change the directory, whatever fails in
    -- it, and ends well where nothing does.
    pub init_ca-exposes :
        args.force ≡ false
        → All
            (λ step.
              (e : CertDir) × (z : CliError) × (init_ca r args (fails_at step) empty
                ≡ (err z, [], e))
              × (e.ca_key ≡ some (file root.key_pem))
              × ((fs : List Bool) → (init_ca r args fs e).2 ≡ e)
              × (init_ca r args [] e ≡ (ok skipped, [], e)))
            (3 ∷ 4 ∷ 5 ∷ [])
    unfolding init_ca pure lift look change ◌>>=◌
    init_ca-exposes off =
        let at_cert : CertDir = record empty {
          ca_pem = some (file root.cert_pem);
          ca_key = some (file root.key_pem);
        } in
        let at_key : CertDir = record at_cert { server_pem = some (file cert) } in
        let at_mode : CertDir = record at_key { server_key = some (file key) } in
        (
          (
            at_cert,
            writing,
            rw (made, asked, signed),
            refl,
            (λ fs. init_ca-keeps fs at_cert off refl),
            rw off,
          ),
          (
            (
              at_key,
              writing,
              rw (made, asked, signed),
              refl,
              (λ fs. init_ca-keeps fs at_key off refl),
              rw off,
            ),
            (
              (
                at_mode,
                permissions,
                rw (made, asked, signed),
                refl,
                (λ fs. init_ca-keeps fs at_mode off refl),
                rw off,
              ),
              tt,
            ),
          ),
        )
