-- ===== src/HostCalls/Ca.antt =====
-- host_calls/src/remote_attestation.rs: the certificate of Intel's report signing CA, which
-- `include_bytes!` puts into the program, and what the code cuts out of it.
pub mod Pem
use mathlib.Core.List.{flat_map}
use substra_tee_node_pre.Base.{
  ℕ, Bool, ◌-◌, not, ◌&&◌, ◌==◌, List, [], ◌∷◌, ◌++◌, Bytes, String, bytes_of, length, retain,
  slice,
}
use substra_tee_node_pre.Base.Outcome.{Outcome}

-- host_calls/AttestationReportSigningCACert.pem, line by line
abbrev pem_lines : List String
pem_lines =
    "-----BEGIN CERTIFICATE-----"
    ∷ "MIIFSzCCA7OgAwIBAgIJANEHdl0yo7CUMA0GCSqGSIb3DQEBCwUAMH4xCzAJBgNV"
    ∷ "BAYTAlVTMQswCQYDVQQIDAJDQTEUMBIGA1UEBwwLU2FudGEgQ2xhcmExGjAYBgNV"
    ∷ "BAoMEUludGVsIENvcnBvcmF0aW9uMTAwLgYDVQQDDCdJbnRlbCBTR1ggQXR0ZXN0"
    ∷ "YXRpb24gUmVwb3J0IFNpZ25pbmcgQ0EwIBcNMTYxMTE0MTUzNzMxWhgPMjA0OTEy"
    ∷ "MzEyMzU5NTlaMH4xCzAJBgNVBAYTAlVTMQswCQYDVQQIDAJDQTEUMBIGA1UEBwwL"
    ∷ "U2FudGEgQ2xhcmExGjAYBgNVBAoMEUludGVsIENvcnBvcmF0aW9uMTAwLgYDVQQD"
    ∷ "DCdJbnRlbCBTR1ggQXR0ZXN0YXRpb24gUmVwb3J0IFNpZ25pbmcgQ0EwggGiMA0G"
    ∷ "CSqGSIb3DQEBAQUAA4IBjwAwggGKAoIBgQCfPGR+tXc8u1EtJzLA10Feu1Wg+p7e"
    ∷ "LmSRmeaCHbkQ1TF3Nwl3RmpqXkeGzNLd69QUnWovYyVSndEMyYc3sHecGgfinEeh"
    ∷ "rgBJSEdsSJ9FpaFdesjsxqzGRa20PYdnnfWcCTvFoulpbFR4VBuXnnVLVzkUvlXT"
    ∷ "L/TAnd8nIZk0zZkFJ7P5LtePvykkar7LcSQO85wtcQe0R1Raf/sQ6wYKaKmFgCGe"
    ∷ "NpEJUmg4ktal4qgIAxk+QHUxQE42sxViN5mqglB0QJdUot/o9a/V/mMeH8KvOAiQ"
    ∷ "byinkNndn+Bgk5sSV5DFgF0DffVqmVMblt5p3jPtImzBIH0QQrXJq39AT8cRwP5H"
    ∷ "afuVeLHcDsRp6hol4P+ZFIhu8mmbI1u0hH3W/0C2BuYXB5PC+5izFFh/nP0lc2Lf"
    ∷ "6rELO9LZdnOhpL1ExFOq9H/B8tPQ84T3Sgb4nAifDabNt/zu6MmCGo5U8lwEFtGM"
    ∷ "RoOaX4AS+909x00lYnmtwsDVWv9vBiJCXRsCAwEAAaOByTCBxjBgBgNVHR8EWTBX"
    ∷ "MFWgU6BRhk9odHRwOi8vdHJ1c3RlZHNlcnZpY2VzLmludGVsLmNvbS9jb250ZW50"
    ∷ "L0NSTC9TR1gvQXR0ZXN0YXRpb25SZXBvcnRTaWduaW5nQ0EuY3JsMB0GA1UdDgQW"
    ∷ "BBR4Q3t2pn680K9+QjfrNXw7hwFRPDAfBgNVHSMEGDAWgBR4Q3t2pn680K9+Qjfr"
    ∷ "NXw7hwFRPDAOBgNVHQ8BAf8EBAMCAQYwEgYDVR0TAQH/BAgwBgEB/wIBADANBgkq"
    ∷ "hkiG9w0BAQsFAAOCAYEAeF8tYMXICvQqeXYQITkV2oLJsp6J4JAqJabHWxYJHGir"
    ∷ "IEqucRiJSSx+HjIJEUVaj8E0QjEud6Y5lNmXlcjqRXaCPOqK0eGRz6hi+ripMtPZ"
    ∷ "sFNaBwLQVV905SDjAzDzNIDnrcnXyB4gcDFCvwDFKKgLRjOB/WAqgscDUoGq5ZVi"
    ∷ "zLUzTqiQPmULAQaB9c6Oti6snEFJiCQ67JLyW/E83/frzCmO5Ru6WjU4tmsmy8Ra"
    ∷ "Ud4APK0wZTGtfPXU7w+IBdG5Ez0kE1qzxGQaL4gINJ1zMyleDnbuS8UicjJijvqA"
    ∷ "152Sq049ESDz+1rRGc2NVEqh1KaGXmtXvqxXcTB+Ljy5Bw2ke0v8iGngFBPqCTVB"
    ∷ "3op5KBG3RjbF6RRSzwzuWfL7QErNC8WEy5yDVARzTA5+xmBc388v9Dm21HGfcC8O"
    ∷ "DD+gT9sSpssq0ascmvH49MOgjt1yoysLtdCtJW/9FZpoOypaHx0R+mJTLwPXVMrv" ∷ "DaVzWh5aiEx+idkSGMnX"
    ∷ "-----END CERTIFICATE-----" ∷ []

unfoldable pub ias_report_ca : Bytes
unfolding flat_map
ias_report_ca = flat_map (λ l. bytes_of l ++ 0x0a ∷ []) pem_lines

abbrev pub head_len : ℕ
head_len = length (bytes_of "-----BEGIN CERTIFICATE-----")

abbrev pub tail_len : ℕ
tail_len = length (bytes_of "-----END CERTIFICATE-----")

abbrev pub not_line_end : ℕ → Bool
not_line_end x = not (x == 0x0d) && not (x == 0x0a)

-- The base64 text between the header and the footer of a PEM file.
unfoldable pub ca_core : Bytes → Outcome Bytes
unfolding retain
ca_core ca =
    let ias_ca_stripped = retain not_line_end ca in
    slice ias_ca_stripped head_len (length ias_ca_stripped - tail_len)
