-- ===== src/I18n/Indonesian/Part5.antt =====
-- web/src/lib/i18n/id.ts, lines 495 to 618.
use ku_crud.Base.{String, [], ◌∷◌}
use ku_crud.Base.Assoc.{Assoc}

abbrev pub indonesian_5 : Assoc String
indonesian_5 =
    ("imp.insertAll", "Sisipkan semua {count} baris (best effort)")
    ∷ ("imp.result", "Hasil")
    ∷ ("imp.inserted", "{count} disisipkan")
    ∷ ("imp.failed", "{count} gagal")
    ∷ ("imp.backGrid", "Kembali ke Grid Data")
    ∷ ("ds.title", "Koneksi Datasource")
    ∷ ("ds.subtitle", "Kelola koneksi dan kredensial basis data untuk pembangkitan CRUD dinamis")
    ∷ ("ds.add", "Tambah Datasource")
    ∷ ("ds.updated", "Datasource berhasil diperbarui")
    ∷ ("ds.created", "Datasource berhasil dibuat")
    ∷ ("ds.saveFailed", "Gagal menyimpan")
    ∷ ("ds.testOk", "Koneksi basis data berhasil!")
    ∷ ("ds.testFailed", "Uji koneksi gagal")
    ∷ ("ds.loading", "Memuat datasource...")
    ∷ ("ds.empty", "Belum ada datasource terhubung")
    ∷ ("ds.emptyHint", "Tambahkan koneksi basis data untuk menghasilkan tabel CRUD dinamis.")
    ∷ ("ds.create", "Buat Datasource")
    ∷ ("ds.ssl", "SSL: {mode}")
    ∷ ("ds.testing", "Menguji...")
    ∷ ("ds.test", "Uji Koneksi")
    ∷ ("ds.editTitle", "Ubah Datasource")
    ∷ ("ds.deleteTitle", "Hapus Datasource")
    ∷ ("ds.deleteConfirm", "Hapus koneksi datasource \"{name}\"?")
    ∷ ("ds.editDialog", "Ubah Koneksi Datasource")
    ∷ ("ds.newDialog", "Koneksi Datasource Baru")
    ∷ ("ds.dialogDesc", "Isi detail koneksi untuk basis data {driver}")
    ∷ ("ds.label", "Label Datasource")
    ∷ ("ds.labelPh", "mis. DB Produksi")
    ∷ ("ds.driver", "Driver")
    ∷ ("ds.host", "Host")
    ∷ ("ds.port", "Port")
    ∷ ("ds.dbname", "Nama Basis Data")
    ∷ ("ds.username", "Nama Pengguna")
    ∷ ("ds.password", "Kata Sandi")
    ∷ ("ds.passwordKeep", "Kata Sandi (kosong = pertahankan)")
    ∷ ("ds.sslmode", "Mode SSL")
    ∷ ("ds.connect", "Hubungkan Datasource")
    ∷ ("audit.title", "Log Jejak Audit")
    ∷ (
      "audit.subtitle",
      "Pelacakan waktu nyata semua mutasi basis data, penyisipan, pembaruan, dan penghapusan baris",
    )
    ∷ ("audit.allTables", "Semua Tabel")
    ∷ ("audit.allActions", "Semua Aksi")
    ∷ ("audit.timestamp", "Waktu")
    ∷ ("audit.table", "Tabel Target")
    ∷ ("audit.user", "Pengguna")
    ∷ ("audit.action", "Aksi")
    ∷ ("audit.rowKey", "Kunci Baris")
    ∷ ("audit.diff", "Inspektor Diff")
    ∷ ("audit.loading", "Memuat log jejak audit...")
    ∷ ("audit.empty", "Tidak ada entri audit")
    ∷ ("audit.unknownTable", "tabel tidak dikenal")
    ∷ ("audit.viewDiff", "Lihat Diff")
    ∷ ("audit.totalEntries", "Total {count} entri log")
    ∷ ("audit.entryLog", "Log Entri Audit #{id}")
    ∷ ("audit.oldState", "Kondisi Sebelumnya (Nilai Lama)")
    ∷ ("audit.newState", "Kondisi Baru (Nilai Baru)")
    ∷ ("ob.title", "Outbox Hook")
    ∷ (
      "ob.hint",
      "After-hook berjalan di belakang. Entry yang gagal di-retry otomatis dengan backoff; entry dead perlu retry manual.",
    )
    ∷ ("ob.refresh", "Muat ulang")
    ∷ ("ob.retry", "Retry")
    ∷ ("ob.retryOk", "Entry dijadwalkan untuk retry")
    ∷ ("ob.filter.all", "Semua status")
    ∷ ("ob.status.pending", "Menunggu")
    ∷ ("ob.status.done", "Selesai")
    ∷ ("ob.status.dead", "Mati")
    ∷ ("ob.col.created", "Dibuat")
    ∷ ("ob.col.event", "Event")
    ∷ ("ob.col.hook", "Hook")
    ∷ ("ob.col.status", "Status")
    ∷ ("ob.col.attempts", "Percobaan")
    ∷ ("ob.col.lastError", "Error terakhir")
    ∷ ("ob.empty", "Tidak ada entry")
    ∷ ("meta.accessRequired", "Akses Manajemen Platform diperlukan.")
    ∷ ("meta.title", "Transfer Definisi")
    ∷ (
      "meta.subtitle",
      "Ekspor semua definisi tabel, datasource (hanya pengaturan koneksi — kata sandi tidak pernah diekspor), dan grup sidebar sebagai JSON, atau impor file tersebut dari instance lain.",
    )
    ∷ ("meta.export", "Ekspor")
    ∷ (
      "meta.exportDesc",
      "Mengunduh snapshot JSON ku-crud-meta dari metadata instance ini. Kata sandi tidak disertakan.",
    )
    ∷ ("meta.exporting", "Mengekspor...")
    ∷ ("meta.download", "Unduh JSON definisi")
    ∷ ("meta.step1", "1. Unggah File")
    ∷ ("meta.step1Desc", "Pilih file JSON ku-crud-meta untuk diimpor (maks 2 MB)")
    ∷ ("meta.analyzing", "Menganalisis...")
    ∷ ("meta.chooseJson", "Pilih file JSON")
    ∷ ("meta.step2", "2. Tinjau & Pilih")
    ∷ (
      "meta.step2Desc",
      "Item baru dan yang berkonflik default menimpa; duplikat identik default dilewati. Datasource baru membutuhkan kata sandi sebelum dapat dibuat.",
    )
    ∷ ("meta.datasources", "Datasource ({count})")
    ∷ ("meta.tables", "Tabel ({count})")
    ∷ ("meta.ref", "Ref")
    ∷ ("meta.status", "Status")
    ∷ ("meta.mode", "Mode")
    ∷ ("meta.password", "Kata Sandi")
    ∷ ("meta.dependencies", "Dependensi")
    ∷ ("meta.conflicts", "konflik: {list}")
    ∷ ("meta.passwordPh", "kata sandi")
    ∷ ("meta.existingDs", "— datasource yang sudah ada —")
    ∷ ("meta.noDs", "Tidak ada datasource dalam file")
    ∷ ("meta.noTables", "Tidak ada tabel dalam file")
    ∷ ("meta.skip", "lewati")
    ∷ ("meta.overwrite", "timpa")
    ∷ ("meta.skipForced", "lewati (paksa)")
    ∷ ("meta.invalidTitle", "Tabel tidak valid tidak dapat diimpor")
    ∷ ("meta.resolved", "terselesaikan (lokal atau dalam file)")
    ∷ ("meta.unresolved", "belum terselesaikan")
    ∷ ("meta.step3", "3. Terapkan")
    ∷ (
      "meta.step3Desc",
      "Berjalan dalam satu transaksi — semuanya diterapkan atau tidak ada perubahan. Setiap penulisan diaudit.",
    )
    ∷ ("meta.importGroups", "Impor grup tabel")
    ∷ ("meta.importing", "Mengimpor...")
    ∷ ("meta.importSel", "Impor definisi terpilih")
    ∷ ("meta.nothingToImport", "Semuanya dilewati — tidak ada yang diimpor.")
    ∷ ("meta.defsCreated", "{count} definisi dibuat")
    ∷ ("meta.defsUpdated", "{count} definisi diperbarui")
    ∷ ("meta.groupsCreated", "{count} grup dibuat")
    ∷ (
      "meta.passwordsNote",
      "Kata sandi datasource tidak diimpor — verifikasi koneksi sebelum dipakai (cek drift pada tiap tabel tersedia dari Tabel & Skema).",
    )
    ∷ ("users.title", "Pengguna")
    ∷ ("users.subtitle", "Kelola akun login dan penugasan perannya")
    ∷ ("users.add", "Tambah Pengguna")
    ∷ ("users.username", "Nama Pengguna")
    ∷ ("users.role", "Peran")
    ∷ ("users.status", "Status")
    ∷ ("users.loading", "Memuat pengguna...")
    ∷ []
