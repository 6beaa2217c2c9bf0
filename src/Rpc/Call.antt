-- ===== src/Rpc/Call.antt =====
-- The call header and the credentials of rpc/auth.rs and rpc/header.rs. The machine name is its
-- bytes; the stamp, which the source takes from the clock, is an argument.
use nfs_rs.Common.{ℕ, ◌%◌, ◌^◌, ◌≡◌, refl, List, [], ◌++◌, length, replicate, append_assoc, arith}
use nfs_rs.Wire.{Reader, ok, pure, ◌>>=◌, get_u32, IsU32}
use nfs_rs.Wire.Words.{be32, get_u32-be32, >>=-run, concat_map}
use nfs_rs.Wire.Opaque.{padding, xdr_opaque, decode_opaque, decode_opaque-run}

pub data AuthFlavor : Type 0 where
  null unix : AuthFlavor

abbrev pub flavor_number : AuthFlavor → ℕ
flavor_number null = 0
flavor_number unix = 1

pub record Auth : Type 0 where
  pub flavor : AuthFlavor
  pub uid : ℕ
  pub gid : ℕ
  pub body : List ℕ

pub record AuthUnix : Type 0 where
  pub stamp : ℕ
  pub machinename : List ℕ
  pub uid : ℕ
  pub gid : ℕ
  pub gids : List ℕ

pub encode_unix : AuthUnix → List ℕ
encode_unix a =
    be32 a.stamp
    ++ (be32 (length a.machinename % 2 ^ 32)
        ++ (a.machinename
            ++ (replicate (padding (length a.machinename)) 0
                ++ (be32 a.uid
                    ++ (be32 a.gid ++ (be32 (length a.gids % 2 ^ 32) ++ concat_map be32 a.gids))))))

unfoldable pub new_null : Auth
new_null = record { flavor = null; uid = 0; gid = 0; body = [] }

pub new_unix : ℕ → List ℕ → ℕ → ℕ → Auth
unfolding encode_unix
new_unix stamp machinename uid gid = record {
  flavor = unix;
  uid = uid;
  gid = gid;
  body =
      encode_unix
        (record { stamp = stamp; machinename = machinename; uid = uid; gid = gid; gids = [] });
}

unfoldable pub encode_auth : Auth → List ℕ
encode_auth a =
    be32 (flavor_number a.flavor)
    ++ (be32 (length a.body % 2 ^ 32) ++ (a.body ++ replicate (padding (length a.body)) 0))

pub record Header : Type 0 where
  pub rpcvers : ℕ
  pub prog : ℕ
  pub vers : ℕ
  pub proc : ℕ
  pub cred : Auth
  pub verf : Auth

unfoldable pub encode_header : Header → List ℕ
encode_header h =
    be32 h.rpcvers
    ++ (be32 h.prog ++ (be32 h.vers ++ (be32 h.proc ++ (encode_auth h.cred ++ encode_auth h.verf))))

-- `rpc_header` of nfs3/mod.rs.
unfoldable pub rpc_header : ℕ → ℕ → ℕ → Auth → Header
unfolding new_null
rpc_header prog vers proc auth = record {
  rpcvers = 2;
  prog = prog;
  vers = vers;
  proc = proc;
  cred = auth;
  verf = new_null;
}

pub encode_auth-eq : (a : Auth) → encode_auth a ≡ be32 (flavor_number a.flavor) ++ xdr_opaque a.body
unfolding encode_auth xdr_opaque
encode_auth-eq a = refl

-- How a server reads the fields of a call header (RFC 5531), described apart from the writer.
abbrev pub Opened : Type 0
Opened = ℕ × ℕ × ℕ × ℕ × (ℕ × List ℕ) × (ℕ × List ℕ)

pub read_opaque_auth : Reader (ℕ × List ℕ)
read_opaque_auth = do flavor ← get_u32; body ← decode_opaque; pure (flavor, body)

pub read_header : Reader Opened
read_header = do
  rpcvers ← get_u32
  prog ← get_u32
  vers ← get_u32
  proc ← get_u32
  cred ← read_opaque_auth
  verf ← read_opaque_auth
  pure (rpcvers, prog, vers, proc, cred, verf)

pub record IsHeader (h : Header) : Type 0 where
  pub rpcvers_fits : IsU32 h.rpcvers
  pub prog_fits : IsU32 h.prog
  pub vers_fits : IsU32 h.vers
  pub proc_fits : IsU32 h.proc
  pub cred_fits : IsU32 (length h.cred.body)
  pub verf_fits : IsU32 (length h.verf.body)

read_opaque_auth-encode :
    (a : Auth) (r : List ℕ)
    → IsU32 (length a.body)
    → read_opaque_auth (encode_auth a ++ r) ≡ ok ((flavor_number a.flavor, a.body), r)
unfolding read_opaque_auth pure
read_opaque_auth-encode a r h =
    rw (encode_auth-eq a, append_assoc)
      (>>=-run _ _ (get_u32-be32 (flavor_number a.flavor) _ (flavor_fits a.flavor))
        (>>=-run _ _ (decode_opaque-run a.body r h) refl))
  where
    flavor_fits : (f : AuthFlavor) → IsU32 (flavor_number f)
    flavor_fits null = omega arith
    flavor_fits unix = omega arith

-- The header that the client writes opens to the fields that it was given, whatever follows it,
-- when these fit their words and the credential bodies are shorter than 2 ^ 32 bytes.
pub read_header-encode_header :
    (h : Header) (r : List ℕ)
    → IsHeader h
    → read_header (encode_header h ++ r)
      ≡ ok (
        (
          h.rpcvers,
          h.prog,
          h.vers,
          h.proc,
          (flavor_number h.cred.flavor, h.cred.body),
          (flavor_number h.verf.flavor, h.verf.body),
        ),
        r,
      )
unfolding read_header pure encode_header
read_header-encode_header h r f = simp append_assoc (
    >>=-run _ _ (get_u32-be32 h.rpcvers _ f.rpcvers_fits) (
      >>=-run _ _ (get_u32-be32 h.prog _ f.prog_fits) (
        >>=-run _ _ (get_u32-be32 h.vers _ f.vers_fits) (
          >>=-run _ _ (get_u32-be32 h.proc _ f.proc_fits) (
            >>=-run _ _ (read_opaque_auth-encode h.cred _ f.cred_fits)
              (>>=-run _ _ (read_opaque_auth-encode h.verf r f.verf_fits) refl))))))
