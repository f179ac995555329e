-- ===== src/Demos/Constants.antt =====
-- examples: the addresses, the seeds and the endpoint that the programs name.
use solana_cpp_sdk.Base.{ℕ, ◌≡◌, refl, arith, List, length, All, IsByte, codes, Result, ok, err}
use solana_cpp_sdk.Base.{true}
use solana_cpp_sdk.Base58.{
  decode, decode_loop, decode_digit, pass, emit, digit_of, alphabet_map, drop_zeros, count_leading,
}
use solana_cpp_sdk.PublicKey.{PublicKey, from_base58, default_key}
use solana_cpp_sdk.Programs.Keys.{IsKey}
use solana_cpp_sdk.Base.{pos}
use solana_cpp_sdk.Rpc.{RpcClient, no_proxy, parse_endpoint, parse_host_port, parse_scheme}
use solana_cpp_sdk.Rpc.{split_path, find, rfind}
use solana_cpp_sdk.Demos.{seed_with}

unfoldable key_or_zero : Result PublicKey → PublicKey
unfolding decode decode_loop decode_digit pass emit digit_of alphabet_map drop_zeros count_leading
    default_key
key_or_zero (ok k) = k
key_or_zero (err e) = default_key

abbrev pub wrapped_sol : List ℕ
wrapped_sol = codes "So11111111111111111111111111111111111111112"

pub wrapped_sol-IsKey : IsKey (from_base58 wrapped_sol)
unfolding from_base58 key_or_zero
wrapped_sol-IsKey = (key_or_zero (from_base58 wrapped_sol), refl, refl)

abbrev pub wallet_text : List ℕ
wallet_text = codes "Fg6PaFpoGXkYsidMpWTK6W2BeZ7FEfcYkg476zPFsLnS"

pub wallet-IsKey : IsKey (from_base58 wallet_text)
unfolding from_base58 key_or_zero
wallet-IsKey = (key_or_zero (from_base58 wallet_text), refl, refl)

abbrev pub mint_text : List ℕ
mint_text = codes "4zMMC9srt5Ri5X14GAgXhaHii3GnPAEERYPJgZJDncDU"

pub mint-IsKey : IsKey (from_base58 mint_text)
unfolding from_base58 key_or_zero
mint-IsKey = (key_or_zero (from_base58 mint_text), refl, refl)

pub seed-IsByte : All IsByte (seed_with 0 0x01 31 0xff)
unfolding seed_with
seed-IsByte = omega arith

pub seed_size : length (seed_with 0 0x01 31 0xff) ≡ 32
unfolding seed_with
seed_size = refl

pub sender_seed-IsByte : All IsByte (seed_with 0 0xab 1 0xcd)
unfolding seed_with
sender_seed-IsByte = omega arith

pub sender_seed_size : length (seed_with 0 0xab 1 0xcd) ≡ 32
unfolding seed_with
sender_seed_size = refl

-- The client for the endpoint of the three programs that have one.
abbrev pub devnet : RpcClient
devnet = record {
  endpoint = codes "https://api.devnet.solana.com";
  host = codes "api.devnet.solana.com";
  path = codes "/";
  port = pos 443;
  tls = true;
  proxy = no_proxy;
}

pub parse_endpoint-devnet :
    parse_endpoint (codes "https://api.devnet.solana.com") no_proxy ≡ ok devnet
unfolding parse_endpoint parse_host_port parse_scheme split_path find rfind
parse_endpoint-devnet = refl
