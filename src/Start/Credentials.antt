-- ===== src/Start/Credentials.antt =====
-- The TLS configurations of the two programs of cmd/, when both read the same files.
use g_rpc_playground.Prelude.{ℕ, String, ◌≡◌, List, [], ◌∷◌, arith}
use g_rpc_playground.Exec.{ret, Result, ok}
use g_rpc_playground.Start.{
  Tls, TlsConfig, require_and_verify_client_cert, server_tls_credentials, client_tls_credentials,
}

module _ {P K : Type 0} (read_file : String → Result (List ℕ)) (tls : Tls P K) where
  -- Where both configurations load from the same folder, the server asks every client for a certificate
  -- and checks it against the very pool of authorities against which the client checks the server; each
  -- of the two shows the certificate of its own files.
  credentials_agree :
      (server client : TlsConfig P K) (k k' : K)
      → (server_tls_credentials read_file tls tt).0 ≡ ret server
      → (client_tls_credentials read_file tls tt).0 ≡ ret client
      → tls.load_x509_key_pair "cert/server-cert.pem" "cert/server-key.pem" ≡ ok k
      → tls.load_x509_key_pair "cert/client-cert.pem" "cert/client-key.pem" ≡ ok k'
      → (server.client_auth ≡ require_and_verify_client_cert)
        × (server.client_cas ≡ client.root_cas)
        × (server.certificates ≡ k ∷ [])
        × (client.certificates ≡ k' ∷ [])
  unfolding server_tls_credentials client_tls_credentials
  credentials_agree server client k k' h h' e e' =
      (ground arith, ground arith, ground arith, ground arith)
